-- ===== src/Entry/Cat.antt =====
-- The command `cat` of linux/entry.rs answers the bytes that were asked for.
use mathlib.Core.Path.{ap₂}
use sunwalker_box.Common.{
  ℕ, zero, suc, ◌+◌, ◌-◌, ◌≤◌, ◌<◌, ◌≡◌, refl, sym, ap, ◌∙◌, false, List, [], ◌∷◌, ◌++◌, append-nil,
  append_assoc, length, length-drop, min, if◌then◌else◌, take, drop, drop-drop, ltb, le→ltb, ◌==◌,
  arith, Bool-cases, inl, inr,
}
use sunwalker_box.Common.Exec.{ok}
use sunwalker_box.Entry.{ReadCount, read_loop, read_length, cat}

-- A read returns something while there is something to return.
pub record IsReader (n_read : ReadCount) (file : List ℕ) : Type 0 where
  pub progress : (pos want : ℕ) → 0 < want → pos < length file → 0 < n_read pos want
  pub no_more : (pos want : ℕ) → n_read pos want ≤ want

take_nil : (n : ℕ) → take {A = ℕ} n [] ≡ []
take_nil zero = refl
take_nil (suc n) = refl

take-length : (xs : List ℕ) → take (length xs) xs ≡ xs
take-length [] = refl
take-length (x ∷ xs) = ap (λ l. x ∷ l) (take-length xs)

take-min-length : (xs : List ℕ) (n : ℕ) → take (min (length xs) n) xs ≡ take n xs
take-min-length [] n =
    let none_left : min (length {A = ℕ} []) n ≡ 0 = omega arith in rw none_left (sym (take_nil n))
take-min-length (x ∷ xs) zero =
    let none_left : min (length (x ∷ xs)) 0 ≡ 0 = omega arith in rw none_left refl
take-min-length (x ∷ xs) (suc n) =
    let shorter : min (length (x ∷ xs)) (suc n) ≡ suc (min (length xs) n) = omega arith in
    rw shorter (ap (λ l. x ∷ l) (take-min-length xs n))

take_append_take :
    (n m : ℕ) (xs : List ℕ) → n ≤ m → take n xs ++ take (m - n) (drop n xs) ≡ take m xs
take_append_take zero m xs h = ap (λ k. take k xs) (omega arith)
take_append_take (suc n) zero xs h = absurd (omega arith)
take_append_take (suc n) (suc m) [] h = take_nil (suc m - suc n)
take_append_take (suc n) (suc m) (x ∷ xs) h =
    ap (λ l. x ∷ l)
      (ap (λ k. take n xs ++ take k (drop n xs)) (omega arith)
        ∙ take_append_take n m xs (omega arith))

module _ (n_read : ReadCount) (file : List ℕ) (reader : IsReader n_read file) where
  later :
      (ptr n read_len at : ℕ)
      → n ≤ read_len - ptr
      → take n (drop (at + ptr) file) ++ take (read_len - (ptr + n)) (drop (at + (ptr + n)) file)
        ≡ take (read_len - ptr) (drop (at + ptr) file)
  later ptr n read_len at few =
      ap (λ l. take n (drop (at + ptr) file) ++ l)
        (ap₂ (λ m k. take m (drop k file)) (omega arith) (omega arith)
          ∙ ap (take (read_len - ptr - n)) (sym (drop-drop n (at + ptr) file)))
      ∙ take_append_take n (read_len - ptr) (drop (at + ptr) file) few

  read_loop_lem :
      (fuel at read_len ptr : ℕ) (buf : List ℕ)
      → ptr ≤ read_len
      → at + read_len ≤ length file
      → read_len - ptr < fuel
      → read_loop n_read file fuel at read_len ptr buf
        ≡ ok (buf ++ take (read_len - ptr) (drop (at + ptr) file))
  unfolding read_loop
  read_loop_lem zero at read_len ptr buf h fits enough = absurd (omega arith)
  read_loop_lem (suc fuel) at read_len ptr buf h fits enough =
      elim (Bool-cases (ltb ptr read_len)) [
        | inr done ↦
            let none_left : read_len - ptr ≡ 0 = ground arith in
            rw done (rw none_left (ap ok (sym (append-nil buf))))
        | inl more ↦
            let n = n_read (at + ptr) (read_len - ptr) in
            let some_read : 0 < n =
              reader.progress (at + ptr) (read_len - ptr) (ground arith) (ground arith) in
            let few : n ≤ read_len - ptr = reader.no_more (at + ptr) (read_len - ptr) in
            let nonzero : (n == 0) ≡ false = ground arith in
            rw more (
              rw nonzero (
                read_loop_lem fuel at read_len (ptr + n) (buf ++ take n (drop (at + ptr) file))
                  (ground arith) fits (ground arith)
                ∙ ap ok (
                    append_assoc buf (take n (drop (at + ptr) file)) _
                    ∙ ap (λ l. buf ++ l) (later ptr n read_len at few))))
      ]

  take-read_length :
      (at len : ℕ)
      → at ≤ length file
      → take (read_length n_read file at len) (drop at file)
        ≡ (if len == 0 then drop at file else take len (drop at file))
  take-read_length at len h =
      let left : length file - at ≡ length (drop at file) = sym (length-drop at file) in
      elim (Bool-cases (len == 0)) [
        | inl all ↦ rw all (rw left (take-length (drop at file)))
        | inr limited ↦ rw limited (rw left (take-min-length (drop at file) len))
      ]

  -- Where the file is not empty and the offset is not past its end, the answer is the bytes from the
  -- offset on; where `len` is not 0, the first `len` of them, or all where there are fewer. A read returns
  -- something while there is something to return, and no more than was wanted, however it is cut.
  pub cat_lem :
      (special : List ℕ) (at len : ℕ)
      → at ≤ length file
      → 0 < length file
      → cat n_read file special at len
        ≡ ok (if len == 0 then drop at file else take len (drop at file))
  unfolding cat
  cat_lem special at len h nonempty =
      let filled : (length file == 0) ≡ false = ground arith in
      let inside : ltb (length file) at ≡ false = le→ltb (length file) at h in
      rw filled (
        rw inside (
          read_loop_lem (suc (read_length n_read file at len)) at (read_length n_read file at len) 0
            [] (omega arith) (ground arith) (omega arith)
          ∙ ap ok (
              ap₂ (λ m k. take m (drop k file)) (omega arith) (omega arith)
              ∙ take-read_length at len h)))
