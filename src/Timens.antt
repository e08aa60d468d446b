-- ===== src/Timens.antt =====
-- linux/timens.rs, `reset_system_time_for_children`: the clocks of the next program start anew. The
-- kernel answers each call, by all the calls before it, which are recorded, the latest first. A time
-- is in nanoseconds; a clock that has run since the boot is not negative.
pub mod Offsets
use sunwalker_box.Common.{
  ℕ, ◌+◌, ◌-◌, ◌/◌, ◌%◌, Bool, true, false, Option, none, some, List, [], ◌∷◌, min, ◌==◌,
  if◌then◌else◌,
}
use sunwalker_box.Common.Int.{ℤ, pos, negsuc, negate}
use sunwalker_box.Common.Exec.{
  Answer, answer, errno, answered, Failure, io, Result, ok, err, Exec, pure, fail, lift, skip,
  and_then, ◌>>=◌, ◌>>◌, granted,
}

pub data ClockId : Type 0 where
  clock_monotonic clock_monotonic_raw clock_monotonic_coarse clock_boottime : ClockId

-- `nix::sys::time::TimeSpec`.
pub record TimeSpec : Type 0 where
  pub tv_sec : ℤ
  pub tv_nsec : ℕ

pub data TimeCall : Type 0 where
  unshare : ℕ → TimeCall
  clock_gettime : ClockId → TimeCall
  rewind : TimeCall
  -- The lines for `monotonic` and `boottime`.
  write_offsets : TimeSpec → TimeSpec → TimeCall

abbrev pub TimeHistory : Type 0
TimeHistory = List TimeCall

pub record TimeHost : Type 0 where
  pub call_reply : TimeHistory → TimeCall → Option ℕ
  pub clock_reply : TimeHistory → ClockId → Answer ℕ

abbrev pub Timing : Type 0 → Type 0
Timing A = Exec TimeHistory A

abbrev pub clone_newtime : ℕ
clone_newtime = 128

-- `-time`, whose nanoseconds are counted up from the second below.
unfoldable pub negated : ℕ → TimeSpec
negated time =
    if time % 1_000_000_000 == 0
    then record { tv_sec = negate (time / 1_000_000_000); tv_nsec = 0 }
    else record {
      tv_sec = negsuc (time / 1_000_000_000);
      tv_nsec = 1_000_000_000 - time % 1_000_000_000;
    }

-- `collect()` of three results and `min()`.
unfoldable pub min_time : Answer ℕ → Answer ℕ → Answer ℕ → Result ℕ
min_time a b c =
    and_then (answered a)
      (λ x. and_then (answered b) (λ y. and_then (answered c) (λ z. ok (min (min x y) z))))

module _ (host : TimeHost) where
  unfoldable pub time_call : TimeCall → Timing (Unit {0})
  time_call c h = granted (host.call_reply h c) (c ∷ h)

  unfoldable pub now : ClockId → Timing (Answer ℕ)
  now clock h = (ok (host.clock_reply h clock), clock_gettime clock ∷ h)

  unfoldable pub reset_system_time_for_children : Timing (Unit {0})
  unfolding time_call now min_time negated
  reset_system_time_for_children = do
    time_call (unshare clone_newtime)
    monotonic ← now clock_monotonic
    raw ← now clock_monotonic_raw
    coarse ← now clock_monotonic_coarse
    earliest ← lift (min_time monotonic raw coarse)
    reply ← now clock_boottime
    since_boot ← lift (answered reply)
    time_call rewind
    time_call (write_offsets (negated earliest) (negated since_boot))
