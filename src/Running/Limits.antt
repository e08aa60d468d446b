-- ===== src/Running/Limits.antt =====
-- The limits of a run: how long the runner sleeps, when it stops, and what it reports.
use sunwalker_box.Common.{
  ℕ, ◌+◌, ◌-◌, ◌*◌, ◌/◌, ◌≤◌, ◌<◌, ◌≡◌, inl, inr, refl, Bool, true, false, Option, none, some,
  arith, min, leb, ◌==◌, if◌then◌else◌, Bool-cases, ap, ◌∙◌, ◌↔◌,
}
use sunwalker_box.Common.Int.{ℤ, pos, negsuc}
use sunwalker_box.Common.Exec.{Result, ok}
use sunwalker_box.Running.{
  Options, Verdict, exit_code, signaled, cpu_time_limit_exceeded, real_time_limit_exceeded,
  idleness_time_limit_exceeded, memory_limit_exceeded, RunResults, WaitStatus, exited, killed,
  duration_max, from_millis, min_real, min_polled, timeout_ms, compute_wait_timeout_ms, over,
  is_exceeding_limits, compute_verdict, verdict_of_status,
}

-- A limit that leaves room for the padding of 50 ms.
abbrev pub Representable : Option ℕ → Type 0
Representable none = Unit
Representable (some limit) = limit + 50000000 ≤ duration_max

abbrev pub WithinLimits : Options → RunResults → Type 0
WithinLimits options results = is_exceeding_limits options results ≡ false

-- Where no more than the limit is used, the subtraction does not panic.
min_real_total :
    (limit : Option ℕ) (used timeout : ℕ)
    → over limit used ≡ false
    → (t : ℕ) × (min_real limit used timeout ≡ some t)
      × (t ≤ timeout)
      × ((l : ℕ) → limit ≡ some l → used + t ≤ l)
unfolding min_real over
min_real_total none used timeout h = (timeout, refl, omega arith, λ l e. cc)
min_real_total (some limit) used timeout h =
    (min timeout (limit - used), ground arith, omega arith, λ l e. ground arith)

min_polled_total :
    (limit : Option ℕ) (used timeout : ℕ)
    → over limit used ≡ false
    → Representable limit
    → (t : ℕ) × (min_polled limit used timeout ≡ some t) × (t ≤ timeout)
unfolding min_polled over
min_polled_total none used timeout h r = (timeout, refl, omega arith)
min_polled_total (some limit) used timeout h r =
    (min timeout (limit - used + 50000000), ground arith, omega arith)

-- Each limit by itself.
pub record NotOver (options : Options) (results : RunResults) : Type 0 where
  pub cpu : over options.cpu_time_limit results.cpu_time ≡ false
  pub real : over options.real_time_limit results.real_time ≡ false
  pub idleness : over options.idleness_time_limit results.idleness_time ≡ false
  pub memory : over options.memory_limit results.memory ≡ false

pub NotOver-WithinLimits :
    (options : Options) (results : RunResults)
    → WithinLimits options results
    → NotOver options results
unfolding is_exceeding_limits
NotOver-WithinLimits options results h = record {
  cpu = ground arith;
  real = ground arith;
  idleness = ground arith;
  memory = ground arith;
}

-- A timeout that `epoll_wait` takes: -1, or at most 1000 seconds.
abbrev pub IsTimeout : ℤ → Type 0
IsTimeout (pos n) = n ≤ 1000000
IsTimeout (negsuc n) = n ≡ 0

timeout_ms-IsTimeout : (t : ℕ) → IsTimeout (timeout_ms t)
unfolding timeout_ms
timeout_ms-IsTimeout t = elim (Bool-cases (t == duration_max)) [
  | inl longest ↦ rw longest refl
  | inr shorter ↦ rw shorter (omega arith)
]

timeout_ms_below : (t : ℕ) → t < duration_max → (n : ℕ) × (timeout_ms t ≡ pos n) × (n * 1000000 ≤ t)
unfolding timeout_ms
timeout_ms_below t h = (
  min (if leb (t / 1_000_000) 2147483647 then t / 1_000_000 else 2147483647) 1_000_000,
  ground arith,
  ground arith,
)

module _ (options : Options) (results : RunResults) (within : WithinLimits options results)
    (cpu_room : Representable options.cpu_time_limit)
    (idleness_room : Representable options.idleness_time_limit) where
  -- The nanoseconds left.
  time_left :
      (t : ℕ) × ((has_peak : Bool)
        → compute_wait_timeout_ms options results has_peak
          ≡ some (timeout_ms (if has_peak then t else from_millis 50)))
      × ((limit : ℕ) → options.real_time_limit ≡ some limit → results.real_time + t ≤ limit)
  unfolding compute_wait_timeout_ms
  time_left =
      let parts = NotOver-WithinLimits options results within in
      let (t, real, _, due) =
        min_real_total options.real_time_limit results.real_time duration_max parts.real in
      let (t', cpu, le) =
        min_polled_total options.cpu_time_limit results.cpu_time t parts.cpu cpu_room in
      let (t'', idle, le') =
        min_polled_total options.idleness_time_limit results.idleness_time t' parts.idleness
          idleness_room in
      (
        t'',
        (λ has_peak. rw real (rw cpu (rw idle))),
        λ limit e. omega (arith, due limit e, le, le'),
      )

  -- Within the limits, and where the limits of CPU time and idleness, if any, are at least 50 ms less than
  -- the longest `Duration`, the computation does not panic, and the timeout is -1 or at most 1000000 ms.
  pub compute_wait_timeout_ms-IsTimeout :
      (has_peak : Bool)
      → (t : ℤ) × (compute_wait_timeout_ms options results has_peak ≡ some t) × IsTimeout t
  compute_wait_timeout_ms-IsTimeout has_peak =
      let (t, e, _) = time_left in (_, e has_peak, timeout_ms-IsTimeout _)

  -- With `memory.peak` at hand the runner wakes up by the real time limit.
  pub compute_wait_timeout_ms-le-limit :
      (limit : ℕ)
      → options.real_time_limit ≡ some limit
      → limit < duration_max
      → (n : ℕ) × (compute_wait_timeout_ms options results true ≡ some (pos n))
        × (results.real_time + n * 1_000_000 ≤ limit)
  compute_wait_timeout_ms-le-limit limit e short =
      let (t, runs, due) = time_left in
      let (n, is_pos, below) = timeout_ms_below t (omega (arith, due limit e)) in
      (n, runs true ∙ ap some is_pos, omega (arith, due limit e, below))

abbrev pub IsLimitVerdict : Verdict → Type 0
IsLimitVerdict (exit_code _) = ⊥
IsLimitVerdict (signaled _) = ⊥
IsLimitVerdict _ = Unit

-- The limit that is named, where several are passed: CPU time, real time, idleness, memory.
abbrev first_exceeded : Options → RunResults → Verdict
first_exceeded options results =
    if over options.cpu_time_limit results.cpu_time
    then cpu_time_limit_exceeded
    else if over options.real_time_limit results.real_time
    then real_time_limit_exceeded
    else if over options.idleness_time_limit results.idleness_time
    then idleness_time_limit_exceeded
    else memory_limit_exceeded

-- When the loop stops because a limit is passed, the verdict names a limit, however the status of
-- the last event reads.
pub compute_verdict-IsLimitVerdict :
    (options : Options) (results : RunResults) (oom : Bool) (status : WaitStatus)
    → is_exceeding_limits options results ≡ true
    → (v : Verdict) × (compute_verdict options results (ok oom) status ≡ ok v) × IsLimitVerdict v
unfolding compute_verdict is_exceeding_limits
compute_verdict-IsLimitVerdict options results oom status h =
    (first_exceeded options results, ground arith, ground arith)

status_of_exit_code :
    (status : WaitStatus) (code : ℕ)
    → verdict_of_status status ≡ ok (exit_code code)
    → (pid : ℕ) × (status ≡ exited pid code)
unfolding verdict_of_status
status_of_exit_code (exited pid c) code h = (pid, ground arith)
status_of_exit_code (killed pid signal) code h = absurd (ground arith)
status_of_exit_code _ code h = absurd (cc)

-- An exit code is reported exactly when the main process exited, within every limit and with no
-- kill for lack of memory.
pub compute_verdict_exit_code :
    (options : Options) (results : RunResults) (oom : Result Bool) (status : WaitStatus) (code : ℕ)
    → (compute_verdict options results oom status ≡ ok (exit_code code))
      ↔ (WithinLimits options results × (oom ≡ ok false) × ((pid : ℕ) × (status ≡ exited pid code)))
unfolding compute_verdict is_exceeding_limits
compute_verdict_exit_code options results oom status code = (
  (λ h. (ground arith, ground arith, status_of_exit_code status code (ground arith))),
  λ h. unfold verdict_of_status in ground arith,
)
