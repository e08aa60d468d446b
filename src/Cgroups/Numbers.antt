-- ===== src/Cgroups/Numbers.antt =====
-- The lines that the kernel writes to a statistics file, a key and a decimal number, and how the
-- parser of linux/cgroups.rs reads them.
use native.Mathlib.Omega.{pow_step}
use mathlib.Core.Path.{subst}
use sunwalker_box.Common.{
  ℕ, zero, suc, ◌+◌, ◌-◌, ◌*◌, ◌/◌, ◌%◌, ◌^◌, ◌<◌, ◌≡◌, refl, sym, ap, ◌∙◌, true, false, ◌&&◌, some,
  List, [], ◌∷◌, ◌++◌, ltb, ◌==◌, if◌then◌else◌, arith, lt→ltb, Bool-cases, inl, inr,
}
use sunwalker_box.Common.Exec.{ok}
use sunwalker_box.Rootfs.{eq_bytes}
use sunwalker_box.Rootfs.Mounts.{starts_with}
use sunwalker_box.Cgroups.{
  is_whitespace, extend_word, split_whitespace, nonempty_words, split_ascii_whitespace, is_digit,
  parse_digits, parse_number, parse_line, has_key,
}

-- Decimal digits, by repeated division.
unfoldable pub show_digits : ℕ → ℕ → List ℕ → List ℕ
show_digits zero n rest = rest
show_digits (suc k) n rest =
    let more = show_digits k (n / 10) ((48 + n % 10) ∷ rest) in
    if ltb n 10 then (48 + n % 10) ∷ rest else more

unfoldable pub show_number : ℕ → List ℕ
unfolding show_digits
show_number n = show_digits 20 n []

digit_step :
    (m n : ℕ) (rest : List ℕ)
    → m * 10 + n % 10 ≡ n
    → n < 2 ^ 64
    → parse_digits m ((48 + n % 10) ∷ rest) ≡ parse_digits n rest
unfolding parse_digits
digit_step m n rest e fits =
    let digit : is_digit (48 + n % 10) ≡ true = ground arith in
    let value : m * 10 + (48 + n % 10 - 48) ≡ n = omega (arith, e) in
    rw digit (rw value (rw (lt→ltb n (2 ^ 64) fits) refl))

parse-show_digits :
    (k n : ℕ) (rest : List ℕ)
    → n < 10 ^ k
    → n < 2 ^ 64
    → parse_digits 0 (show_digits k n rest) ≡ parse_digits n rest
unfolding show_digits
parse-show_digits zero n rest small fits = ap (λ m. parse_digits m rest) (omega arith)
parse-show_digits (suc k) n rest small fits =
    let small' : n < 10 ^ k * 10 = omega (arith, pow_step 10 k) in
    elim (Bool-cases (ltb n 10)) [
      | inl h ↦ rw h (digit_step 0 n rest (ground arith) fits)
      | inr h ↦ rw h (
          parse-show_digits k (n / 10) _ (omega arith) (omega arith)
          ∙ digit_step (n / 10) n rest (omega arith) fits)
    ]

-- A word: no whitespace in it.
abbrev pub IsPlain : List ℕ → Type 0
IsPlain [] = Unit
IsPlain (c ∷ cs) = (is_whitespace c ≡ false) × IsPlain cs

abbrev IsDecimal : List ℕ → Type 0
IsDecimal [] = Unit
IsDecimal (c ∷ cs) = (is_digit c ≡ true) × IsDecimal cs

decimal-IsPlain : (cs : List ℕ) → IsDecimal cs → IsPlain cs
decimal-IsPlain [] h = tt
decimal-IsPlain (c ∷ cs) (h, hs) = (ground arith, decimal-IsPlain cs hs)

show_digits-IsDecimal :
    (k n : ℕ) (rest : List ℕ) → IsDecimal rest → IsDecimal (show_digits k n rest)
unfolding show_digits
show_digits-IsDecimal zero n rest h = h
show_digits-IsDecimal (suc k) n rest h =
    let digit : is_digit (48 + n % 10) ≡ true = ground arith in
    elim (Bool-cases (ltb n 10)) [
      | inl e ↦ rw e (digit, h)
      | inr e ↦ rw e (show_digits-IsDecimal k (n / 10) ((48 + n % 10) ∷ rest) (digit, h))
    ]

show_digits_more :
    (k n c : ℕ) (cs : List ℕ) → (d : ℕ) × (ds : List ℕ) × (show_digits k n (c ∷ cs) ≡ d ∷ ds)
unfolding show_digits
show_digits_more zero n c cs = (c, cs, refl)
show_digits_more (suc k) n c cs = elim (Bool-cases (ltb n 10)) [
  | inl e ↦ (48 + n % 10, c ∷ cs, rw e refl)
  | inr e ↦ let (d, ds, e') = show_digits_more k (n / 10) (48 + n % 10) (c ∷ cs) in (d, ds, rw e e')
]

show_number_lem : (n : ℕ) → (d : ℕ) × (ds : List ℕ) × (show_number n ≡ d ∷ ds) × IsDecimal (d ∷ ds)
unfolding show_number
show_number_lem n = elim (Bool-cases (ltb n 10)) [
  | inl e ↦ (48 + n % 10, [], (unfold show_digits in rw e refl), (ground arith, tt))
  | inr e ↦
      let (d, ds, e') = show_digits_more 19 (n / 10) (48 + n % 10) [] in
      (
        d,
        ds,
        (unfold show_digits in rw e e'),
        subst IsDecimal ((unfold show_digits in rw e refl) ∙ e') (show_digits-IsDecimal 20 n [] tt),
      )
]

pub show_number-IsPlain : (n : ℕ) → IsPlain (show_number n)
unfolding show_number
show_number-IsPlain n = decimal-IsPlain (show_digits 20 n []) (show_digits-IsDecimal 20 n [] tt)

pub parse-show_number : (n : ℕ) → n < 2 ^ 64 → parse_number (show_number n) ≡ some n
unfolding parse_number show_number parse_digits
parse-show_number n fits =
    let (d, ds, e, (digit, _)) = show_number_lem n in
    let not_plus : (d == 43) ≡ false = ground arith in
    let whole : parse_digits 0 (show_number n) ≡ some n =
      parse-show_digits 20 n [] (omega arith) fits in
    let parsed : parse_number (d ∷ ds) ≡ parse_digits 0 (d ∷ ds) = rw not_plus refl in
    ap parse_number e ∙ parsed ∙ ap (parse_digits 0) (sym e) ∙ whole

-- A line of a statistics file.
unfoldable pub show_line : List ℕ → ℕ → List ℕ
unfolding show_number
show_line key n = key ++ 32 ∷ show_number n

split_whitespace_plain : (w : List ℕ) → IsPlain w → split_whitespace w ≡ w ∷ []
unfolding split_whitespace
split_whitespace_plain [] h = refl
split_whitespace_plain (c ∷ cs) (h, hs) = rw h (ap (extend_word c) (split_whitespace_plain cs hs))

split_whitespace_line :
    (w rest : List ℕ) → IsPlain w → split_whitespace (w ++ 32 ∷ rest) ≡ w ∷ split_whitespace rest
unfolding split_whitespace
split_whitespace_line [] rest h = refl
split_whitespace_line (c ∷ cs) rest (h, hs) =
    rw h (ap (extend_word c) (split_whitespace_line cs rest hs))

pub parse_line-show_line :
    (c : ℕ) (cs : List ℕ) (n : ℕ)
    → IsPlain (c ∷ cs)
    → n < 2 ^ 64
    → parse_line (show_line (c ∷ cs) n) ≡ ok n
unfolding parse_line split_ascii_whitespace show_line
parse_line-show_line c cs n plain fits =
    let (d, ds, e, decimal) = show_number_lem n in
    let split : split_whitespace ((c ∷ cs) ++ 32 ∷ show_number n) ≡ (c ∷ cs) ∷ (d ∷ ds) ∷ [] =
      split_whitespace_line (c ∷ cs) (show_number n) plain
      ∙ ap (λ l. (c ∷ cs) ∷ split_whitespace l) e
      ∙ ap (λ l. (c ∷ cs) ∷ l)
          (split_whitespace_plain (d ∷ ds) (decimal-IsPlain (d ∷ ds) decimal)) in
    let words : nonempty_words (split_whitespace ((c ∷ cs) ++ 32 ∷ show_number n))
        ≡ (c ∷ cs) ∷ (d ∷ ds) ∷ [] =
      ap nonempty_words split ∙ (unfold nonempty_words in refl) in
    rw (words, split_ascii_whitespace)
      (rw (ap parse_number (sym e) ∙ parse-show_number n fits) refl)

-- A line has a key exactly when it is the line of that key.
pub has_key-show_line :
    (name key : List ℕ) (n : ℕ)
    → IsPlain name
    → IsPlain key
    → has_key (show_line name n) key ≡ eq_bytes name key
unfolding has_key show_line starts_with eq_bytes
has_key-show_line [] [] n h h' = refl
has_key-show_line [] (k ∷ ks) n h (h', _) = ground arith
has_key-show_line (c ∷ cs) [] n (h, _) h' = ground arith
has_key-show_line (c ∷ cs) (k ∷ ks) n (_, h) (_, h') =
    ap (λ b. c == k && b) (has_key-show_line cs ks n h h')
