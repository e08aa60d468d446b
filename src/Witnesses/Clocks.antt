-- ===== src/Witnesses/Clocks.antt =====
-- The offsets of linux/timens.rs where the clocks show some seconds since the boot.
use sunwalker_box.Common.{ℕ, ◌≡◌, refl, none, [], ◌∷◌}
use sunwalker_box.Common.Exec.{answer, ok, skip, lift, ◌>>=◌}
use sunwalker_box.Timens.{
  TimeSpec, rewind, clock_boottime, clock_gettime, write_offsets, TimeHistory, TimeHost,
  reset_system_time_for_children,
}
use sunwalker_box.Timens.Offsets.{
  IsShift, clock_calls, IsEarliest, reset_system_time_for_children_lem,
}

abbrev host : TimeHost
host = record { call_reply = λ h c. none; clock_reply = λ h clock. answer 1500000000 }

abbrev after : TimeHistory
after = (reset_system_time_for_children host []).1

reset_returns : reset_system_time_for_children host [] ≡ (ok tt, after)
unfolding reset_system_time_for_children ◌>>=◌ lift skip
reset_returns = refl

reset_system_time_example :
    (earliest since_boot : ℕ) × (monotonic boottime : TimeSpec) × IsEarliest host [] earliest
    × (host.clock_reply (clock_calls []) clock_boottime ≡ answer since_boot)
    × IsShift earliest monotonic
    × IsShift since_boot boottime
    × (after
        ≡ write_offsets monotonic boottime ∷ rewind ∷ clock_gettime clock_boottime ∷ clock_calls [])
reset_system_time_example = reset_system_time_for_children_lem host [] after reset_returns
