-- ===== src/Common/Exec/Calls.antt =====
-- Calls that are answered by all the calls before them, the latest first, and end the action where they
-- fail; a list of them is what an action without branches does.
use mathlib.Core.Path.{◌≡◌, refl, ap, sym, ◌∙◌}
use mathlib.Core.List.{List, [], ◌∷◌, ◌++◌}
use mathlib.Core.Option.{Option, none, some}
use Prim.Native.Nat.{ℕ}
use sunwalker_box.Common.Exec.{granted, Result, ok, err, Exec, skip, ◌>>=◌, ◌>>◌}

module _ {S : Type 0} (m : Exec S (Unit {0})) where
  pub then_assoc : (k l : Exec S (Unit {0})) (s : S) → ((m >> k) >> l) s ≡ (m >> (k >> l)) s
  unfolding ◌>>=◌
  then_assoc k l s = by_result (m s).0 refl
    where
      by_result : (r : Result (Unit {0})) → (m s).0 ≡ r → ((m >> k) >> l) s ≡ (m >> (k >> l)) s
      by_result (ok _) e = rw e refl
      by_result (err f) e = rw e refl

  pub then_skip : (s : S) → (m >> skip) s ≡ m s
  unfolding ◌>>=◌ skip
  then_skip s = by_result (m s).0 refl
    where
      by_result : (r : Result (Unit {0})) → (m s).0 ≡ r → (m >> skip) s ≡ m s
      by_result (ok _) e = rw e refl ∙ ap (λ r. (r, (m s).1)) (sym e)
      by_result (err f) e = rw e refl ∙ ap (λ r. (r, (m s).1)) (sym e)

-- The history after calls, in their order.
abbrev pub record_calls : {C : Type 0} → List C → List C → List C
record_calls [] h = h
record_calls (c ∷ cs) h = record_calls cs (c ∷ h)

module _ {C : Type 0} (call_reply : List C → C → Option ℕ) where
  unfoldable pub call : C → Exec (List C) (Unit {0})
  call c h = granted (call_reply h c) (c ∷ h)

  -- One after the other, up to the first that fails.
  unfoldable pub each_call : List C → Exec (List C) (Unit {0})
  unfolding call
  each_call [] = skip
  each_call (c ∷ cs) = do call c; each_call cs

  -- What was done is the beginning of what was to be done, and all of it after no failure.
  pub each_call_lem :
      (cs : List C) (h : List C)
      → (done left : List C) × (cs ≡ done ++ left)
        × ((each_call cs h).1 ≡ record_calls done h)
        × ((each_call cs h).0 ≡ ok tt → left ≡ [])
  unfolding each_call ◌>>=◌ skip call
  each_call_lem [] h = ([], [], refl, refl, λ _. refl)
  each_call_lem (c ∷ cs) h = by_reply (call_reply h c) refl (each_call_lem cs (c ∷ h))
    where
      by_reply :
          (r : Option ℕ)
          → call_reply h c ≡ r
          → (done left : List C) × (cs ≡ done ++ left)
            × ((each_call cs (c ∷ h)).1 ≡ record_calls done (c ∷ h))
            × ((each_call cs (c ∷ h)).0 ≡ ok tt → left ≡ [])
          → (done left : List C) × (c ∷ cs ≡ done ++ left)
            × ((each_call (c ∷ cs) h).1 ≡ record_calls done h)
            × ((each_call (c ∷ cs) h).0 ≡ ok tt → left ≡ [])
      by_reply none r (done, left, e, made, all) =
          (c ∷ done, left, ap (λ l. c ∷ l) e, rw r made, rw r all)
      by_reply (some e) r rest = (c ∷ [], cs, refl, rw r refl, rw r (λ z. absurd (cc)))

  pub each_call-last : (c : C) → call c ≡ each_call (c ∷ [])
  unfolding each_call
  each_call-last c j h = sym (then_skip (call c) h) j
