-- ===== src/Serde/Sequences/RoundTrip.antt =====
-- Sequences, arrays and maps are read back as they were written.
use mathlib.Core.List.{foldl}
use native.Mathlib.Nat.{add-zero}
use sunwalker_box.Common.{
  ℕ, ◌^◌, ◌<◌, ◌≡◌, some, List, [], ◌∷◌, ◌++◌, length, ap, ◌∙◌, sym, append-nil, append_assoc,
}
use sunwalker_box.Serde.{Serializer, Deserializer, write}
use sunwalker_box.Serde.Object.{
  Object, Transmissible, At, At-advance, At-image, advance, advance-advance, write-write, write-nil,
}
use sunwalker_box.Serde.Words.{word, word_object, word_transmissible, to_ne_bytes}
use sunwalker_box.Serde.Builtins.{pair_object}
use sunwalker_box.Serde.Builtins.RoundTrip.{pair_transmissible}
use sunwalker_box.Serde.Sequences.{
  serialize_items, serialize_sequence, push_items, deserialize_sequence, push_back, vec_object,
  array_object,
}

abbrev pub All {ℓ} : {A : Type 0} → (A → Type ℓ) → List A → Type ℓ
All P [] = Unit
All P (x ∷ xs) = P x × All P xs

foldl-push_back : {A : Type 0} (seq xs : List A) → foldl push_back seq xs ≡ seq ++ xs
foldl-push_back seq [] = sym (append-nil seq)
foldl-push_back seq (x ∷ xs) = foldl-push_back (seq ++ x ∷ []) xs ∙ append_assoc seq (x ∷ []) xs

module _ {A : Type 0} ⦃o : Object A⦄ ⦃t : Transmissible A⦄ where
  abbrev pub image_items : List A → List ℕ
  image_items [] = []
  image_items (x ∷ xs) = t.image x ++ image_items xs

  pub writes_items :
      (xs : List A) (s : Serializer)
      → All t.Valid xs
      → serialize_items xs s ≡ some (write (image_items xs) s)
  unfolding serialize_items
  writes_items [] s v = ap some (sym (write-nil s))
  writes_items (x ∷ xs) s (vx, vs) = rw (t.writes x s vx) (
      writes_items xs (write (t.image x) s) vs
      ∙ ap some (write-write (t.image x) (image_items xs) s))

  pub reads_items :
      {S : Type 0} (push : S → A → S) (xs : List A) (seq : S) (d : Deserializer) (rest : List ℕ)
      → All t.Valid xs
      → At d (image_items xs ++ rest)
      → push_items push (length xs) seq d
        ≡ some (foldl push seq xs, advance (length (image_items xs)) d)
  unfolding push_items
  reads_items push [] seq d rest v at =
      ap (λ p. some (seq, record d { pos = p })) (sym (add-zero d.pos))
  reads_items push (x ∷ xs) seq d rest (vx, vs) at =
      let here = At-image (t.image x) (image_items xs) rest at in
      rw (t.reads x d (image_items xs ++ rest) vx here) (
        reads_items push xs (push seq x) (advance (length (t.image x)) d) rest vs
          (At-advance d (t.image x) (image_items xs ++ rest) here)
        ∙ ap (λ z. some (foldl push (push seq x) xs, z))
            (advance-advance d (t.image x) (image_items xs)))

  abbrev pub ValidSequence : List A → Type 0
  ValidSequence xs = (length xs < 256 ^ 8) × All t.Valid xs

  abbrev pub image_sequence : List A → List ℕ
  image_sequence xs = to_ne_bytes 8 (length xs) ++ image_items xs

  pub writes_sequence :
      (xs : List A) (s : Serializer)
      → ValidSequence xs
      → serialize_sequence xs s ≡ some (write (image_sequence xs) s)
  unfolding serialize_sequence
  writes_sequence xs s (short, v) = rw (word_transmissible.writes (word (length xs)) s short) (
      writes_items xs (write (to_ne_bytes 8 (length xs)) s) v
      ∙ ap some (write-write (to_ne_bytes 8 (length xs)) (image_items xs) s))

  pub reads_sequence :
      {S : Type 0} (push : S → A → S) (empty : S) (xs : List A) (d : Deserializer) (rest : List ℕ)
      → ValidSequence xs
      → At d (image_sequence xs ++ rest)
      → deserialize_sequence push empty d
        ≡ some (foldl push empty xs, advance (length (image_sequence xs)) d)
  unfolding deserialize_sequence
  reads_sequence push empty xs d rest (short, v) at =
      let size = to_ne_bytes 8 (length xs) in
      let here = At-image size (image_items xs) rest at in
      rw (word_transmissible.reads (word (length xs)) d (image_items xs ++ rest) short here) (
        reads_items push xs empty (advance (length size) d) rest v
          (At-advance d size (image_items xs ++ rest) here)
        ∙ ap (λ z. some (foldl push empty xs, z)) (advance-advance d size (image_items xs)))

  -- A vector of fewer than 2^64 items that can be transmitted is read back from its length and the
  -- images of its items.
  pub reads_vec :
      (xs : List A) (d : Deserializer) (rest : List ℕ)
      → ValidSequence xs
      → At d (image_sequence xs ++ rest)
      → deserialize_sequence push_back [] d ≡ some (xs, advance (length (image_sequence xs)) d)
  reads_vec xs d rest v at =
      reads_sequence push_back [] xs d rest v at
      ∙ ap (λ z. some (z, advance (length (image_sequence xs)) d)) (foldl-push_back [] xs)

instance abbrev pub vec_transmissible :
    {A : Type 0} ⦃o : Object A⦄ ⦃t : Transmissible A⦄ → Transmissible (List A)
vec_transmissible = record {
  Valid = ValidSequence;
  image = image_sequence;
  writes = writes_sequence;
  reads = reads_vec;
}
