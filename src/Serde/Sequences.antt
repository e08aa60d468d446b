-- ===== src/Serde/Sequences.antt =====
-- multiprocessing/src/builtins.rs: arrays, and the macros for sequences and maps. A sequence is its
-- length and then its items; reading pushes the items one by one into an empty collection.
pub mod RoundTrip
use sunwalker_box.Common.{
  ℕ, zero, suc, ◌≡◌, Bool, true, false, Option, none, some, List, [], ◌∷◌, ◌++◌, length,
  if◌then◌else◌,
}
use sunwalker_box.Serde.{Serializer, Deserializer}
use sunwalker_box.Serde.Object.{Object, ◌>>=◌, serialize, deserialize}
use sunwalker_box.Serde.Words.{Word, word, word_object}
use sunwalker_box.Serde.Builtins.{pair_object}

module _ {A : Type 0} ⦃o : Object A⦄ where
  unfoldable pub serialize_items : List A → Serializer → Option Serializer
  serialize_items [] s = some s
  serialize_items (item ∷ items) s = do s' ← serialize item s; serialize_items items s'

  -- `serialize_self` of the macro `impl_serialize_for_sequence`.
  unfoldable pub serialize_sequence : List A → Serializer → Option Serializer
  unfolding serialize_items
  serialize_sequence items s = do
    s' ← serialize {A = Word 8} (word (length items)) s
    serialize_items items s'

module _ {A S : Type 0} ⦃o : Object A⦄ (push : S → A → S) where
  unfoldable pub push_items : ℕ → S → Deserializer → Option (S × Deserializer)
  push_items zero seq d = some (seq, d)
  push_items (suc n) seq d = do (item, d') ← deserialize {A = A} d; push_items n (push seq item) d'

  -- `deserialize_self` of the macro, with the collection's `$push`.
  unfoldable pub deserialize_sequence : S → Deserializer → Option (S × Deserializer)
  unfolding push_items
  deserialize_sequence empty d = do
    (size, d') ← deserialize {A = Word 8} d
    push_items size.value empty d'

-- `Vec::push`, `VecDeque::push_back` and `LinkedList::push_back`.
abbrev pub push_back : {A : Type 0} → List A → A → List A
push_back xs x = xs ++ x ∷ []

instance abbrev pub vec_object : {A : Type 0} ⦃o : Object A⦄ → Object (List A)
vec_object = record {
  serialize_self = serialize_sequence;
  deserialize_self = deserialize_sequence push_back [];
}

-- `[T; N]`: the items alone.
pub record Array (n : ℕ) (A : Type 0) : Type 0 where
  pub items : List A

module _ {A : Type 0} ⦃o : Object A⦄ where
  unfoldable pub deserialize_array : (n : ℕ) → Deserializer → Option (Array n A × Deserializer)
  unfolding push_items
  deserialize_array n d = do
    (items, d') ← push_items push_back n [] d
    some (record { items = items }, d')

instance abbrev pub array_object : {n : ℕ} {A : Type 0} ⦃o : Object A⦄ → Object (Array n A)
array_object {n} = record {
  serialize_self = λ a s. serialize_items a.items s;
  deserialize_self = deserialize_array n;
}

-- `HashMap` in iteration order; a key's equality is the argument of `insert`.
pub record HashMap (K V : Type 0) : Type 0 where
  pub entries : List (K × V)

module _ {K V : Type 0} (same : K → K → Bool) where
  unfoldable pub insert_entry : List (K × V) → K × V → List (K × V)
  insert_entry [] (k, v) = (k, v) ∷ []
  insert_entry ((j, w) ∷ m) (k, v) = if same j k then (j, v) ∷ m else (j, w) ∷ insert_entry m (k, v)

-- The macro `impl_serialize_for_map`: the length, then each key and its value.
module _ {K V : Type 0} ⦃ok : Object K⦄ ⦃ov : Object V⦄ where
  unfoldable pub serialize_map : HashMap K V → Serializer → Option Serializer
  unfolding serialize_sequence
  serialize_map m s = serialize_sequence m.entries s

  unfoldable pub deserialize_map :
      (K → K → Bool) → Deserializer → Option (HashMap K V × Deserializer)
  unfolding insert_entry deserialize_sequence
  deserialize_map same d = do
    (entries, d') ← deserialize_sequence (insert_entry same) [] d
    some (record { entries = entries }, d')
