-- ===== src/Running/Emulation.antt =====
-- A system call that the tracer of linux/running.rs makes in the place of the process.
