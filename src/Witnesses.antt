-- ===== src/Witnesses.antt =====
-- The theorems at concrete inputs, by component.
mod Transport
mod Objects
mod Files
mod Runs
mod Commands
mod Resets
mod Box
mod Limits
mod Exchange
mod Procs
mod Workers
mod Roots
mod Clocks
mod Spawns
mod Reapers
mod Runners
