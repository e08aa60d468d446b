-- ===== src/Cgroups/Removal/Backoff.antt =====
-- The retries of `remove_cgroup` in linux/cgroups.rs.

use sunwalker_box.Common.{
  ℕ, zero, suc, ◌+◌, ◌*◌, ◌≤◌, ◌<◌, ◌≡◌, ◌≢◌, ◌⊎◌, inl, inr, refl, Option, none, some, [], ◌∷◌,
  ◌==◌, arith, Bool-cases, lt→ltb,
}
use sunwalker_box.Common.Exec.{Result, ok, err, nix, ◌>>=◌}
use sunwalker_box.Cgroups.Removal.{
  Cg, Directory, rmdir, sleep_ms, CgroupHistory, CgroupFs, ask, enoent, ebusy, rmdir_again,
  rmdir_loop, remove_empty,
}

-- The milliseconds slept.
unfoldable pub slept : CgroupHistory → ℕ
slept [] = 0
slept (sleep_ms n ∷ h) = n + slept h
slept (_ ∷ h) = slept h

-- What `n` waits amount to, each twice as long as the one before.
unfoldable pub waits : ℕ → ℕ → ℕ
waits zero backoff = 0
waits (suc n) backoff = backoff + waits n (backoff * 2)

-- The loop ended, and gave up on EBUSY only after all its waits.
pub record Settled (time : ℕ) (h : CgroupHistory) (r : Result (Unit {0})) (h' : CgroupHistory)
    : Type 0 where
  pub waited : slept h' ≤ slept h + time
  pub outcome :
      (r ≡ ok tt)
      ⊎ ((e : ℕ) × (r ≡ err (nix e)) × (e ≢ enoent) × (e ≡ ebusy → slept h' ≡ slept h + time))

-- A round that ends the loop.
settled : (time : ℕ) (dir : Directory) (h : CgroupHistory) → Settled time h (ok tt) (rmdir dir ∷ h)
unfolding slept
settled time dir h = record { waited = omega arith; outcome = inl refl }

failed :
    (time e : ℕ) (dir : Directory) (h : CgroupHistory)
    → e ≢ enoent
    → (e ≡ ebusy → time ≡ 0)
    → Settled time h (err (nix e)) (rmdir dir ∷ h)
unfolding slept
failed time e dir h there spent = record {
  waited = omega arith;
  outcome = inr (e, refl, there, λ busy. omega (arith, spent busy));
}

-- A wait, and then the rest of the loop.
waited_first :
    (backoff time : ℕ) (dir : Directory) (h : CgroupHistory) (r : Result (Unit {0}))
    (h' : CgroupHistory)
    → Settled time (sleep_ms backoff ∷ rmdir dir ∷ h) r h'
    → Settled (backoff + time) h r h'
unfolding slept
waited_first backoff time dir h r h' rest = record {
  waited = omega (arith, rest.waited);
  outcome = elim rest.outcome [
    | inl done ↦ inl done
    | inr (e, fails, there, spent) ↦ inr (e, fails, there, λ busy. omega (arith, spent busy))
  ];
}

module _ (fs : CgroupFs) (dir : Directory) where
  no_retry :
      (retry : ℕ → ℕ → Cg (Unit {0})) (backoff : ℕ) (h : CgroupHistory) (reply : Option ℕ)
      → Settled 0 h
          (rmdir_again fs retry backoff 5 reply (rmdir dir ∷ h)).0
          (rmdir_again fs retry backoff 5 reply (rmdir dir ∷ h)).1
  unfolding rmdir_again ◌>>=◌
  no_retry retry backoff h none = settled 0 dir h
  no_retry retry backoff h (some e) = elim (Bool-cases (e == enoent)) [
    | inl gone ↦ rw gone (settled 0 dir h)
    | inr there ↦
        let fails = failed 0 e dir h (λ gone. ground (arith, there)) (λ _. refl) in
        rw there
          (elim (Bool-cases (e == ebusy)) [ inl busy ↦ rw busy fails | inr other ↦ rw other fails ])
  ]

  with_retry :
      (retry : ℕ → ℕ → Cg (Unit {0})) (time backoff times : ℕ) (h : CgroupHistory)
      (reply : Option ℕ)
      → times < 5
      → ((h' : CgroupHistory)
          → Settled time h'
              (retry (backoff * 2) (times + 1) h').0
              (retry (backoff * 2) (times + 1) h').1)
      → Settled
          (backoff + time)
          h
          (rmdir_again fs retry backoff times reply (rmdir dir ∷ h)).0
          (rmdir_again fs retry backoff times reply (rmdir dir ∷ h)).1
  unfolding rmdir_again ◌>>=◌ ask
  with_retry retry time backoff times h none few later = settled (backoff + time) dir h
  with_retry retry time backoff times h (some e) few later = elim (Bool-cases (e == enoent)) [
    | inl gone ↦ rw gone (settled (backoff + time) dir h)
    | inr there ↦ rw there (elim (Bool-cases (e == ebusy)) [
      | inl busy ↦ rw busy (
          rw (lt→ltb times 5 few)
            (waited_first backoff time dir h _ _ (later (sleep_ms backoff ∷ rmdir dir ∷ h))))
      | inr other ↦ rw other (
          failed (backoff + time) e dir h (λ gone. ground (arith, there))
            (λ busy. absurd (ground (arith, other))))
    ])
  ]

  rmdir_loop-Settled :
      (n backoff times : ℕ) (h : CgroupHistory)
      → times + n ≡ 5
      → Settled
          (waits n backoff)
          h
          (rmdir_loop fs (suc n) dir backoff times h).0
          (rmdir_loop fs (suc n) dir backoff times h).1
  unfolding rmdir_loop ◌>>=◌ ask waits
  rmdir_loop-Settled zero backoff times h five =
      let last : times ≡ 5 = omega arith in
      rw last (no_retry (rmdir_loop fs 0 dir) backoff h (fs.rmdir_reply h dir))
  rmdir_loop-Settled (suc m) backoff times h five =
      with_retry (rmdir_loop fs (suc m) dir) (waits m (backoff * 2)) backoff times h
        (fs.rmdir_reply h dir) (omega arith)
        (λ h'. rmdir_loop-Settled m (backoff * 2) (times + 1) h' (omega arith))

  -- Whatever the kernel answers, removing an empty cgroup ends, after waits of 1.55 seconds at most:
  -- it succeeds, or fails by another errno than ENOENT, by EBUSY only when all the waits are over.
  pub remove_empty-Settled :
      (h : CgroupHistory) → Settled 1550 h (remove_empty fs dir h).0 (remove_empty fs dir h).1
  unfolding remove_empty waits
  remove_empty-Settled h = rmdir_loop-Settled 5 50 0 h refl
