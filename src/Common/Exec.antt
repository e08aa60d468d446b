-- ===== src/Common/Exec.antt =====
-- Code that changes a state and may fail: what was changed before a failure stays changed. A panic
-- is a failure that no handler takes. The text that `.context(..)` adds to an error is left out; the
-- root cause, which the program inspects, is kept.
pub mod Safe
pub mod Calls
pub mod Triples
use Prim.Native.Nat.{ℕ}
use Prim.Native.String.{String}
use mathlib.Core.Path.{◌≡◌, refl}
use mathlib.Core.Option.{Option, none, some}

-- `nix` is a `nix::errno::Errno`, `io` a `std::io::Error`, `message` what `bail!` makes.
-- `unfinished` is no failure of the program: a loop of the model ran out of fuel.
pub data Failure : Type 0 where
  nix : ℕ → Failure
  io : ℕ → Failure
  message : String → Failure
  panic : Failure
  unfinished : Failure

pub data Result {ℓ} (A : Type ℓ) : Type ℓ where
  ok : A → Result A
  err : Failure → Result A

-- What was answered from outside, or an errno.
pub data Answer {ℓ} (A : Type ℓ) : Type ℓ where
  answer : A → Answer A
  errno : ℕ → Answer A

abbrev pub answered {ℓ} : {A : Type ℓ} → Answer A → Result A
answered (answer a) = ok a
answered (errno e) = err (io e)

pub answered_ok {ℓ} : {A : Type ℓ} (x : Answer A) (a : A) → answered x ≡ ok a → x ≡ answer a
answered_ok (answer b) a h = cc
answered_ok (errno e) a h = absurd (cc)

abbrev pub Exec : Type 0 → Type 0 → Type 0
Exec S A = S → Result A × S

module _ {S A : Type 0} where
  unfoldable pub pure : A → Exec S A
  pure a s = (ok a, s)

  unfoldable pub fail : Failure → Exec S A
  fail e s = (err e, s)

  unfoldable pub lift : Result A → Exec S A
  lift r s = (r, s)

  unfoldable pub gets : (S → A) → Exec S A
  gets f s = (ok (f s), s)

  -- `.unwrap()`, `.expect(..)`.
  unfoldable pub unwrap : Option A → Exec S A
  unfolding fail pure
  unwrap none = fail panic
  unwrap (some a) = pure a

module _ {S : Type 0} where
  unfoldable pub modify : (S → S) → Exec S (Unit {0})
  modify f s = (ok tt, f s)

  unfoldable pub skip : Exec S (Unit {0})
  skip s = (ok tt, s)

module _ {S : Type 0} where
  -- No errno, or a failure.
  abbrev pub granted : Option ℕ → Exec S (Unit {0})
  granted none = skip
  granted (some e) = fail (io e)

  pub granted_kept : (o : Option ℕ) (s : S) → (granted o s).1 ≡ s
  unfolding skip fail
  granted_kept none s = refl
  granted_kept (some e) s = refl

  pub granted-none : (o : Option ℕ) (s : S) (u : Unit {0}) → (granted o s).0 ≡ ok u → o ≡ none
  unfolding fail
  granted-none none s u e = refl
  granted-none (some n) s u e = absurd (cc)

module _ {S A B : Type 0} where
  abbrev pub continue_with : Result A → (A → Exec S B) → Exec S B
  continue_with (ok a) f s = f a s
  continue_with (err e) f s = (err e, s)

  infixl 5 ◌>>=◌
  unfoldable pub ◌>>=◌ : Exec S A → (A → Exec S B) → Exec S B
  unfolding pure fail lift gets modify skip
  ◌>>=◌ m f s = let (r, s') = m s in continue_with r f s'

module _ {S B : Type 0} where
  infixl 5 ◌>>◌
  abbrev pub ◌>>◌ : Exec S (Unit {0}) → Exec S B → Exec S B
  m >> k = m >>= λ _. k

module _ {S A B : Type 0} where
  continued :
      (r : Result A) (f : A → Exec S B) (s : S) (b : B) (s' : S)
      → continue_with r f s ≡ (ok b, s')
      → (a : A) × (r ≡ ok a) × (f a s ≡ (ok b, s'))
  continued (ok a) f s b s' h = (a, refl, h)
  continued (err e) f s b s' h = absurd (cc)

  -- A block that returned went through each of its actions.
  pub bind_returned :
      (m : Exec S A) (f : A → Exec S B) (s : S) (b : B) (s' : S)
      → (m >>= f) s ≡ (ok b, s')
      → (a : A) × ((m s).0 ≡ ok a) × (f a (m s).1 ≡ (ok b, s'))
  unfolding ◌>>=◌
  bind_returned m f s b s' h = continued (m s).0 f (m s).1 b s' h

module _ {A B : Type 0} where
  -- The `?` operator where no state is kept.
  abbrev pub and_then : Result A → (A → Result B) → Result B
  and_then (ok a) f = f a
  and_then (err e) f = err e

module _ {S A : Type 0} where
  pub pure_returned : (a b : A) (s s' : S) → pure a s ≡ (ok b, s') → (a ≡ b) × (s ≡ s')
  unfolding pure
  pure_returned a b s s' h = (cc, cc)

  pub gets_returned :
      (f : S → A) (s : S) (a : A) → (gets f s).0 ≡ ok a → (f s ≡ a) × ((gets f s).1 ≡ s)
  unfolding gets
  gets_returned f s a h = (cc, refl)
