-- ===== src/Serde/Traits.antt =====
-- multiprocessing/src/builtins.rs: `DynMetadata`, the vtable of a trait object, and `Box`. A program has
-- types that are boxed as a trait object; a process has loaded it somewhere, and knows the vtable of
-- each type by its address.
pub mod RoundTrip
use sunwalker_box.Common.{ℕ, ◌+◌, ◌-◌, ◌%◌, Option, none, some}
use sunwalker_box.Serde.{Serializer, Deserializer}
use sunwalker_box.Serde.Object.{Object, ◌>>=◌, serialize, deserialize}
use sunwalker_box.Serde.Words.{Word, word, word_object}

-- What a process has of the types `Ty`: the address of the vtable of `BaseType`, those of their
-- vtables, and which type's vtable is at an address.
pub record Image (Ty : Type 0) : Type 0 where
  pub base : ℕ
  pub vtable_of : Ty → ℕ
  pub type_at : ℕ → Option Ty

-- 2^64.
abbrev pub word_size : ℕ
word_size = 18446744073709551616

abbrev pub wrapping_sub : ℕ → ℕ → ℕ
wrapping_sub a b = (a + word_size - b) % word_size

abbrev pub wrapping_add : ℕ → ℕ → ℕ
wrapping_add a b = (a + b) % word_size

-- A boxed trait object: the type is known only where the program runs.
abbrev pub Boxed : (Ty : Type 0) → (Ty → Type 0) → Type 0
Boxed Ty El = (t : Ty) × El t

module _ {Ty : Type 0} (image : Image Ty) where
  unfoldable pub serialize_metadata : ℕ → Serializer → Option Serializer
  serialize_metadata vtable s = serialize {A = Word 8} (word (wrapping_sub vtable image.base)) s

  unfoldable pub deserialize_metadata : Deserializer → Option (ℕ × Deserializer)
  deserialize_metadata d = do
    (distance, d') ← deserialize {A = Word 8} d
    some (wrapping_add distance.value image.base, d')

  module _ (El : Ty → Type 0) (object : (t : Ty) → Object (El t)) where
    unfoldable pub serialize_box : Boxed Ty El → Serializer → Option Serializer
    unfolding serialize_metadata
    serialize_box (t, x) s = do
      s' ← serialize_metadata (image.vtable_of t) s
      (object t).serialize_self x s'

    -- The vtable says how to read. What happens at an address with no vtable is not defined.
    unfoldable pub deserialize_box : Deserializer → Option (Boxed Ty El × Deserializer)
    unfolding deserialize_metadata
    deserialize_box d = do
      (vtable, d') ← deserialize_metadata d
      t ← image.type_at vtable
      (x, d'') ← (object t).deserialize_self d'
      some ((t, x), d'')

    abbrev pub box_object : Object (Boxed Ty El)
    box_object = record { serialize_self = serialize_box; deserialize_self = deserialize_box }
