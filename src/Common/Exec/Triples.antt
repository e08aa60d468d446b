-- ===== src/Common/Exec/Triples.antt =====
-- Actions that keep an invariant of the state however they end, and of which more is known where they
-- return: one rule for each way to build one.
use Prim.Native.Nat.{ℕ}
use mathlib.Core.Bool.{Bool, true, false}
use mathlib.Core.Path.{◌≡◌, refl, sym, subst}
use mathlib.Core.List.{List, ◌∷◌}
use mathlib.Core.Option.{Option, none, some}
use sunwalker_box.Common.Tests.{if◌then◌else◌}
use sunwalker_box.Common.Exec.{
  Result, ok, err, Failure, Exec, pure, fail, granted, granted_kept, granted-none, lift, skip,
  unwrap, continue_with, ◌>>=◌,
}

abbrev pub After : {S A : Type 0} → (S → Type 0) → (A → S → Type 0) → Result A → S → Type 0
After I Q (ok a) s = I s × Q a s
After I Q (err e) s = I s

After-weaken :
    {S A : Type 0} (I : S → Type 0) {Q Q' : A → S → Type 0} (r : Result A) (s : S)
    → ((a : A) (s : S) → Q' a s → Q a s)
    → After I Q' r s
    → After I Q r s
After-weaken I (ok a) s w (i, q) = (i, w a s q)
After-weaken I (err e) s w i = i

After-made :
    {S A : Type 0} (I : S → Type 0) (Q : A → S → Type 0) (r : Result A) (s : S)
    → I s
    → ((a : A) → r ≡ ok a → Q a s)
    → After I Q r s
After-made I Q (ok a) s i q = (i, q a refl)
After-made I Q (err e) s i q = i

pub record Triple {S A : Type 0} (I P : S → Type 0) (Q : A → S → Type 0) (m : Exec S A)
    : Type 0 where
  pub at : (s : S) → I s → P s → After I Q (m s).0 (m s).1

module _ {S A : Type 0} {I P : S → Type 0} {Q : A → S → Type 0} where
  pub Triple-pure : (a : A) → ((s : S) → P s → Q a s) → Triple I P Q (pure a)
  unfolding pure
  Triple-pure a q = record { at = λ s i p. (i, q s p) }

  pub Triple-fail : (e : Failure) → Triple I P Q (fail e)
  unfolding fail
  Triple-fail e = record { at = λ s i p. i }

  pub Triple-lift :
      (r : Result A) → ((a : A) → r ≡ ok a → (s : S) → P s → Q a s) → Triple I P Q (lift r)
  unfolding lift
  Triple-lift r q = record { at = λ s i p. After-made I Q r s i (λ a e. q a e s p) }

  pub Triple-unwrap :
      (o : Option A) → ((a : A) → o ≡ some a → (s : S) → P s → Q a s) → Triple I P Q (unwrap o)
  unfolding unwrap
  Triple-unwrap none q = Triple-fail _
  Triple-unwrap (some a) q = Triple-pure a (q a refl)

  pub Triple-weaken :
      {P' : S → Type 0} (m : Exec S A) → ((s : S) → P s → P' s) → Triple I P' Q m → Triple I P Q m
  Triple-weaken m w t = record { at = λ s i p. t.at s i (w s p) }

  pub Triple-weaken_end :
      {Q' : A → S → Type 0} (m : Exec S A)
      → ((a : A) (s : S) → Q' a s → Q a s)
      → Triple I P Q' m
      → Triple I P Q m
  Triple-weaken_end m w t = record { at = λ s i p. After-weaken I (m s).0 (m s).1 w (t.at s i p) }

  -- A part of what holds may be of other things than the state.
  pub Triple-given :
      {F : Type 0} (m : Exec S A) → (F → Triple I P Q m) → Triple I (λ s. F × P s) Q m
  Triple-given m t = record { at = λ s i (f, p). (t f).at s i p }

  pub Triple-if_cases :
      (b : Bool) (m n : Exec S A)
      → (b ≡ true → Triple I P Q m)
      → (b ≡ false → Triple I P Q n)
      → Triple I P Q (if b then m else n)
  Triple-if_cases true m n tm tn = tm refl
  Triple-if_cases false m n tm tn = tn refl

module _ {S : Type 0} {I P : S → Type 0} {Q : Unit {0} → S → Type 0} where
  pub Triple-skip : ((s : S) → P s → Q tt s) → Triple I P Q skip
  unfolding skip
  Triple-skip q = record { at = λ s i p. (i, q s p) }

module _ {S A B : Type 0} {I : S → Type 0} {Q : A → S → Type 0} {R : B → S → Type 0} where
  continue-Triple :
      (r : Result A) (f : A → Exec S B) (s : S)
      → After I Q r s
      → ((a : A) → Triple I (Q a) R (f a))
      → After I R (continue_with r f s).0 (continue_with r f s).1
  continue-Triple (ok a) f s (i, q) tf = (tf a).at s i q
  continue-Triple (err e) f s i tf = i

  pub Triple-bind :
      {P : S → Type 0} (m : Exec S A) (f : A → Exec S B)
      → Triple I P Q m
      → ((a : A) → Triple I (Q a) R (f a))
      → Triple I P R (m >>= f)
  unfolding ◌>>=◌
  Triple-bind m f tm tf = record {
    at = λ s i p. continue-Triple (m s).0 f (m s).1 (tm.at s i p) tf;
  }

After-ends :
    {S A : Type 0} (I : S → Type 0) (Q : A → S → Type 0) (r : Result A) (s : S)
    → After I Q r s
    → I s × ((a : A) → r ≡ ok a → Q a s)
After-ends I Q (ok a) s (i, q) = (i, λ b e. subst (λ x. Q x s) (cc) q)
After-ends I Q (err e) s i = (i, λ b e'. absurd (cc))

-- What is known where the action ends, and where it returns.
pub Triple-ends :
    {S A : Type 0} {I P : S → Type 0} {Q : A → S → Type 0} (m : Exec S A) (s : S)
    → Triple I P Q m
    → I s
    → P s
    → I (m s).1 × ((a : A) → (m s).0 ≡ ok a → Q a (m s).1)
Triple-ends {I = I} {Q = Q} m s t i p = After-ends I Q (m s).0 (m s).1 (t.at s i p)

module _ {C A : Type 0} {I P : List C → Type 0} {Q : A → List C → Type 0} where
  -- A call is recorded before its answer is looked at.
  pub Triple-called :
      (c : C) (k : List C → Exec (List C) A)
      → ((h s : List C) → (k h s).1 ≡ s)
      → ((h : List C) → I h → P h → I (c ∷ h))
      → ((a : A) (h : List C) → P h → (k h (c ∷ h)).0 ≡ ok a → Q a (c ∷ h))
      → Triple I P Q (λ h. k h (c ∷ h))
  Triple-called c k same keep q = record {
    at = λ h i p.
        subst (After I Q (k h (c ∷ h)).0) (sym (same h (c ∷ h)))
          (After-made I Q (k h (c ∷ h)).0 (c ∷ h) (keep h i p) (λ a e. q a h p e));
  }

module _ {C : Type 0} {I P : List C → Type 0} {Q : Unit {0} → List C → Type 0} where
  pub Triple-granted :
      (c : C) (reply : List C → C → Option ℕ)
      → ((h : List C) → I h → P h → I (c ∷ h))
      → ((u : Unit {0}) (h : List C) → P h → reply h c ≡ none → Q u (c ∷ h))
      → Triple I P Q (λ h. granted (reply h c) (c ∷ h))
  Triple-granted c reply keep q =
      Triple-called c (λ h. granted (reply h c)) (λ h. granted_kept (reply h c)) keep
        (λ u h p e. q u h p (granted-none (reply h c) (c ∷ h) u e))
