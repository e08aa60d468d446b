-- ===== src/Timens/Offsets.antt =====
-- What the offsets are that `reset_system_time_for_children` of linux/timens.rs writes.
use sunwalker_box.Common.{
  ℕ, suc, ◌+◌, ◌*◌, ◌/◌, ◌%◌, ◌≤◌, ◌<◌, ◌≡◌, refl, sym, ap, ◌∙◌, ◌⊎◌, inl, inr, ◌∷◌, min, ◌==◌,
  arith, Bool-cases, ==_iff,
}
use sunwalker_box.Common.Int.{negate}
use sunwalker_box.Common.Exec.{
  Answer, answer, errno, answered, answered_ok, ok, lift, bind_returned, granted_kept,
}
use sunwalker_box.Timens.{
  ClockId, clock_monotonic, clock_monotonic_raw, clock_monotonic_coarse, clock_boottime, TimeSpec,
  TimeCall, unshare, clock_gettime, rewind, write_offsets, TimeHistory, TimeHost, clone_newtime,
  negated, min_time, time_call, now, reset_system_time_for_children,
}

-- The time is this many whole seconds without `tv_nsec`, which is less than a second.
abbrev pub IsShift : ℕ → TimeSpec → Type 0
IsShift time offset =
    (seconds : ℕ) × (offset.tv_sec ≡ negate seconds)
    × (time + offset.tv_nsec ≡ seconds * 1_000_000_000)
    × (offset.tv_nsec < 1_000_000_000)

-- What is called, the latest first, up to the reading of the clocks.
abbrev pub clock_calls : TimeHistory → TimeHistory
clock_calls h =
    clock_gettime clock_monotonic_coarse
    ∷ clock_gettime clock_monotonic_raw
    ∷ clock_gettime clock_monotonic
    ∷ unshare clone_newtime
    ∷ h

-- A time is no later than three others, and is one of them.
abbrev pub IsLeast : ℕ → ℕ → ℕ → ℕ → Type 0
IsLeast time a b c = (time ≤ a) × (time ≤ b) × (time ≤ c) × ((time ≡ a) ⊎ (time ≡ b) ⊎ (time ≡ c))

-- None of the three monotonic clocks is before this time, and one shows it.
abbrev pub IsEarliest : TimeHost → TimeHistory → ℕ → Type 0
IsEarliest host h time =
    (a b c : ℕ) × (host.clock_reply (unshare clone_newtime ∷ h) clock_monotonic ≡ answer a)
    × (host.clock_reply (clock_gettime clock_monotonic ∷ unshare clone_newtime ∷ h)
          clock_monotonic_raw
        ≡ answer b)
    × (host.clock_reply
          (clock_gettime clock_monotonic_raw
            ∷ clock_gettime clock_monotonic
            ∷ unshare clone_newtime
            ∷ h)
          clock_monotonic_coarse
        ≡ answer c)
    × IsLeast time a b c

negated-IsShift : (time : ℕ) → IsShift time (negated time)
unfolding negated
negated-IsShift time = elim (Bool-cases (time % 1_000_000_000 == 0)) [
  | inl z ↦
      let (is_zero, _) = ==_iff (time % 1_000_000_000) 0 in
      let whole = is_zero z in rw z ((time / 1_000_000_000), refl, (omega arith), (omega arith))
  | inr z ↦
      let part : time % 1_000_000_000 ≡ 0 → ⊥ = λ e. absurd (cc) in
      rw z ((suc (time / 1_000_000_000)), refl, (omega arith), (omega arith))
]

min-IsLeast : (a b c time : ℕ) → time ≡ min (min a b) c → IsLeast time a b c
min-IsLeast a b c time e = (omega arith, omega arith, omega arith, ground arith)

min_time_lem :
    (x y z : Answer ℕ) (time : ℕ)
    → min_time x y z ≡ ok time
    → (a b c : ℕ) × (x ≡ answer a) × (y ≡ answer b) × (z ≡ answer c) × IsLeast time a b c
unfolding min_time
min_time_lem (answer a) (answer b) (answer c) time e =
    let same : time ≡ min (min a b) c = cc in
    (a, b, c, refl, refl, refl, min-IsLeast a b c time same)
min_time_lem (answer a) (answer b) (errno n) time e = absurd (cc)
min_time_lem (answer a) (errno n) z time e = absurd (cc)
min_time_lem (errno n) y z time e = absurd (cc)

module _ (host : TimeHost) where
  time_call_kept : (c : TimeCall) (h : TimeHistory) → (time_call host c h).1 ≡ c ∷ h
  unfolding time_call
  time_call_kept c h = granted_kept (host.call_reply h c) (c ∷ h)

  written : (c : TimeCall) (h h' : TimeHistory) → time_call host c h ≡ (ok tt, h') → h' ≡ c ∷ h
  written c h h' e = sym (ap (λ r. r.1) e) ∙ time_call_kept c h

  now_is :
      (clock : ClockId) (h : TimeHistory) (r : Answer ℕ)
      → (now host clock h).0 ≡ ok r
      → host.clock_reply h clock ≡ r
  unfolding now
  now_is clock h r e = cc

  -- Where it returns, the kernel was told to shift the monotonic clocks back by the earliest time that
  -- one of the three shows, so that none is negative, and the clock since the boot by its own time; each
  -- shift is whole seconds and less than a second of nanoseconds. Nothing else was called.
  pub reset_system_time_for_children_lem :
      (h h' : TimeHistory)
      → reset_system_time_for_children host h ≡ (ok tt, h')
      → (earliest since_boot : ℕ) × (monotonic boottime : TimeSpec) × IsEarliest host h earliest
        × (host.clock_reply (clock_calls h) clock_boottime ≡ answer since_boot)
        × IsShift earliest monotonic
        × IsShift since_boot boottime
        × (h'
            ≡ write_offsets monotonic boottime
              ∷ rewind
              ∷ clock_gettime clock_boottime
              ∷ clock_calls h)
  unfolding reset_system_time_for_children now lift
  reset_system_time_for_children_lem h h' e =
      let (_, _, on) = bind_returned (time_call host (unshare clone_newtime)) _ h tt h' e in
      let unshared = rw (time_call_kept (unshare clone_newtime) h) at on in
      let (x, ex, e1) = bind_returned (now host clock_monotonic) _ _ tt h' unshared in
      let (y, ey, e2) = bind_returned (now host clock_monotonic_raw) _ _ tt h' e1 in
      let (z, ez, e3) = bind_returned (now host clock_monotonic_coarse) _ _ tt h' e2 in
      let (earliest, found, e4) = bind_returned (lift (min_time x y z)) _ _ tt h' e3 in
      let (a, b, c, at_a, at_b, at_c, least) = min_time_lem x y z earliest found in
      let (boot, eb, e5) = bind_returned (now host clock_boottime) _ _ tt h' e4 in
      let (since_boot, read, e6) = bind_returned (lift (answered boot)) _ _ tt h' e5 in
      let at_boot = answered_ok boot since_boot read in
      let (_, _, e7) = bind_returned (time_call host rewind) _ _ tt h' e6 in
      let rewound =
        rw (time_call_kept rewind (clock_gettime clock_boottime ∷ clock_calls h)) at e7 in
      (
        earliest,
        since_boot,
        negated earliest,
        negated since_boot,
        (a, b, c, now_is _ _ x ex ∙ at_a, now_is _ _ _ ey ∙ at_b, now_is _ _ _ ez ∙ at_c, least),
        now_is _ _ _ eb ∙ at_boot,
        negated-IsShift earliest,
        negated-IsShift since_boot,
        written _ _ h' rewound,
      )
