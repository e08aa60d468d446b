-- ===== src/Common/Exec/Safe.antt =====
-- Actions that do not panic and keep an invariant of the state, one rule for each way to build one.
use sunwalker_box.Common.Tests.{if◌then◌else◌}
use mathlib.Core.Bool.{Bool, true, false}
use mathlib.Core.Path.{◌≡◌, refl}
use Prim.Native.Nat.{ℕ}
use Prim.Native.String.{String}
use sunwalker_box.Common.Exec.{
  nix, io, message, panic, unfinished, Result, ok, err, Answer, answer, errno, answered, Exec, pure,
  fail, lift, gets, skip, continue_with, ◌>>=◌,
}

abbrev pub NotPanic : {A : Type 0} → Result A → Type 0
NotPanic (ok a) = Unit {0}
NotPanic (err panic) = ⊥
NotPanic (err _) = Unit {0}

pub record Safe {S A : Type 0} (P : S → Type 0) (m : Exec S A) : Type 0 where
  pub at : (s : S) → P s → NotPanic (m s).0 × P (m s).1

pub NotPanic-answered : {A : Type 0} (x : Answer A) → NotPanic (answered x)
NotPanic-answered (answer a) = tt
NotPanic-answered (errno e) = tt

module _ {S A : Type 0} {P : S → Type 0} where
  pub Safe-pure : (a : A) → Safe P (pure a)
  unfolding pure
  Safe-pure a = record { at = λ s p. (tt, p) }

  pub Safe-message : (text : String) → Safe P (fail {A = A} (message text))
  unfolding fail
  Safe-message text = record { at = λ s p. (tt, p) }

  pub Safe-io : (e : ℕ) → Safe P (fail {A = A} (io e))
  unfolding fail
  Safe-io e = record { at = λ s p. (tt, p) }

  pub Safe-lift : (r : Result A) → NotPanic r → Safe P (lift r)
  unfolding lift
  Safe-lift r n = record { at = λ s p. (n, p) }

  pub Safe-gets : (f : S → A) → Safe P (gets f)
  unfolding gets
  Safe-gets f = record { at = λ s p. (tt, p) }

  pub Safe-if : (b : Bool) (m n : Exec S A) → Safe P m → Safe P n → Safe P (if b then m else n)
  Safe-if true m n sm sn = sm
  Safe-if false m n sm sn = sn

  pub Safe-if_cases :
      (b : Bool) (m n : Exec S A)
      → (b ≡ true → Safe P m)
      → (b ≡ false → Safe P n)
      → Safe P (if b then m else n)
  Safe-if_cases true m n sm sn = sm refl
  Safe-if_cases false m n sm sn = sn refl

module _ {S : Type 0} {P : S → Type 0} where
  pub Safe-skip : Safe P skip
  unfolding skip
  Safe-skip = record { at = λ s p. (tt, p) }

module _ {S A B : Type 0} {P : S → Type 0} where
  continue-Safe :
      (r : Result A) (f : A → Exec S B) (s : S)
      → NotPanic r
      → P s
      → ((a : A) → Safe P (f a))
      → NotPanic ((lift r >>= f) s).0 × P ((lift r >>= f) s).1
  unfolding ◌>>=◌
  continue-Safe (ok a) f s n p sf = (sf a).at s p
  continue-Safe (err (nix e)) f s n p sf = (tt, p)
  continue-Safe (err (io e)) f s n p sf = (tt, p)
  continue-Safe (err (message t)) f s n p sf = (tt, p)
  continue-Safe (err panic) f s n p sf = absurd n
  continue-Safe (err unfinished) f s n p sf = (tt, p)

  pub Safe-bind :
      (m : Exec S A) (f : A → Exec S B) → Safe P m → ((a : A) → Safe P (f a)) → Safe P (m >>= f)
  unfolding ◌>>=◌
  Safe-bind m f sm sf = record {
    at = λ s p. let (n, p') = sm.at s p in continue-Safe (m s).0 f (m s).1 n p' sf;
  }

-- What a returned value has.
abbrev pub Given : {A : Type 0} → (A → Type 0) → Result A → Type 0
Given Q (ok a) = Q a
Given Q (err panic) = ⊥
Given Q (err _) = Unit {0}

pub record Gives {S A : Type 0} (P : S → Type 0) (Q : A → Type 0) (m : Exec S A) : Type 0 where
  pub at : (s : S) → P s → Given Q (m s).0 × P (m s).1

pub Given-result :
    {A : Type 0} (Q : A → Type 0) (r : Result A)
    → NotPanic r
    → ((a : A) → r ≡ ok a → Q a)
    → Given Q r
Given-result Q (ok a) n q = q a refl
Given-result Q (err (nix e)) n q = tt
Given-result Q (err (io e)) n q = tt
Given-result Q (err (message t)) n q = tt
Given-result Q (err panic) n q = absurd n
Given-result Q (err unfinished) n q = tt

module _ {S A : Type 0} {P : S → Type 0} {Q : A → Type 0} where
  pub Gives-pure : (a : A) → Q a → Gives P Q (pure a)
  unfolding pure
  Gives-pure a q = record { at = λ s p. (q, p) }

  pub Gives-lift : (r : Result A) → NotPanic r → ((a : A) → r ≡ ok a → Q a) → Gives P Q (lift r)
  unfolding lift
  Gives-lift r n q = record { at = λ s p. (Given-result Q r n q, p) }

module _ {S A B : Type 0} {P : S → Type 0} {Q : A → Type 0} {R : B → Type 0} where
  continue-Gives :
      (r : Result A) (f : A → Exec S B) (s : S)
      → Given Q r
      → P s
      → ((a : A) → Q a → Gives P R (f a))
      → Given R (continue_with r f s).0 × P (continue_with r f s).1
  continue-Gives (ok a) f s q p gf = (gf a q).at s p
  continue-Gives (err (nix e)) f s q p gf = (tt, p)
  continue-Gives (err (io e)) f s q p gf = (tt, p)
  continue-Gives (err (message t)) f s q p gf = (tt, p)
  continue-Gives (err panic) f s q p gf = absurd q
  continue-Gives (err unfinished) f s q p gf = (tt, p)

  pub Gives-bind :
      (m : Exec S A) (f : A → Exec S B)
      → Gives P Q m
      → ((a : A) → Q a → Gives P R (f a))
      → Gives P R (m >>= f)
  unfolding ◌>>=◌
  Gives-bind m f gm gf = record {
    at = λ s p. let (q, p') = gm.at s p in continue-Gives (m s).0 f (m s).1 q p' gf;
  }

module _ {S A B : Type 0} {P : S → Type 0} {Q : A → Type 0} where
  continue-Given :
      (r : Result A) (f : A → Exec S B) (s : S)
      → Given Q r
      → P s
      → ((a : A) → Q a → Safe P (f a))
      → NotPanic (continue_with r f s).0 × P (continue_with r f s).1
  continue-Given (ok a) f s q p sf = (sf a q).at s p
  continue-Given (err (nix e)) f s q p sf = (tt, p)
  continue-Given (err (io e)) f s q p sf = (tt, p)
  continue-Given (err (message t)) f s q p sf = (tt, p)
  continue-Given (err panic) f s q p sf = absurd q
  continue-Given (err unfinished) f s q p sf = (tt, p)

  -- The rest of a block may use what the first action gave.
  pub Safe-bind_given :
      (m : Exec S A) (f : A → Exec S B)
      → Gives P Q m
      → ((a : A) → Q a → Safe P (f a))
      → Safe P (m >>= f)
  unfolding ◌>>=◌
  Safe-bind_given m f gm sf = record {
    at = λ s p. let (q, p') = gm.at s p in continue-Given (m s).0 f (m s).1 q p' sf;
  }
