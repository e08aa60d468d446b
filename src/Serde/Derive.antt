-- ===== src/Serde/Derive.antt =====
-- multiprocessing/multiprocessing-derive/src/lib.rs: the code that `derive(Object)` generates. A type is
-- given by its fields, or by its variants with their fields; whether they have names makes no
-- difference to the bytes.
pub mod RoundTrip
use sunwalker_box.Common.{ℕ, zero, suc, ◌+◌, Bool, Option, none, some, ◌⊎◌, inl, inr}
use sunwalker_box.Serde.{Serializer, Deserializer}
use sunwalker_box.Serde.Object.{Object, ◌>>=◌, serialize, deserialize}
use sunwalker_box.Serde.Words.{Word, word, word_object}
use sunwalker_box.Serde.Builtins.{bool_object}
use sunwalker_box.Serde.Text.{RustString, string_object}

-- `syn::Fields`: the types in their order, each with its `Object`.
pub data Fields : Type 1 where
  no_fields : Fields
  field : (A : Type 0) → Object A → Fields → Fields

pub data Variants : Type 1 where
  no_variants : Variants
  variant : Fields → Variants → Variants

abbrev pub Struct : Fields → Type 0
Struct no_fields = Unit {0}
Struct (field A o fs) = A × Struct fs

abbrev pub Enum : Variants → Type 0
Enum no_variants = ⊥
Enum (variant fs vs) = Struct fs ⊎ Enum vs

unfoldable pub serialize_fields : (fs : Fields) → Struct fs → Serializer → Option Serializer
serialize_fields no_fields x s = some s
serialize_fields (field A o fs) (a, rest) s = do
  s' ← o.serialize_self a s
  serialize_fields fs rest s'

unfoldable pub deserialize_fields : (fs : Fields) → Deserializer → Option (Struct fs × Deserializer)
deserialize_fields no_fields d = some (tt, d)
deserialize_fields (field A o fs) d = do
  (a, d') ← o.deserialize_self d
  (rest, d'') ← deserialize_fields fs d'
  some ((a, rest), d'')

abbrev pub struct_object : (fs : Fields) → Object (Struct fs)
struct_object fs = record {
  serialize_self = serialize_fields fs;
  deserialize_self = deserialize_fields fs;
}

-- `i` is the number of the first variant.
unfoldable pub serialize_variants : (vs : Variants) → ℕ → Enum vs → Serializer → Option Serializer
unfolding serialize_fields
serialize_variants no_variants i x s = absurd x
serialize_variants (variant fs vs) i (inl x) s = do
  s' ← serialize {A = Word 8} (word i) s
  serialize_fields fs x s'
serialize_variants (variant fs vs) i (inr x) s = serialize_variants vs (suc i) x s

-- `panic!("Unexpected enum variant")` past the last one.
unfoldable pub deserialize_variant :
    (vs : Variants) → ℕ → Deserializer → Option (Enum vs × Deserializer)
unfolding deserialize_fields
deserialize_variant no_variants n d = none
deserialize_variant (variant fs vs) zero d = do (x, d') ← deserialize_fields fs d; some (inl x, d')
deserialize_variant (variant fs vs) (suc n) d = do
  (x, d') ← deserialize_variant vs n d
  some (inr x, d')

unfoldable pub deserialize_variants :
    (vs : Variants) → Deserializer → Option (Enum vs × Deserializer)
unfolding deserialize_variant
deserialize_variants vs d = do
  (n, d') ← deserialize {A = Word 8} d
  deserialize_variant vs n.value d'

abbrev pub enum_object : (vs : Variants) → Object (Enum vs)
enum_object vs = record {
  serialize_self = serialize_variants vs 0;
  deserialize_self = deserialize_variants vs;
}

-- `entry::CLIStartCommand`: the core, the root, the two quotas and whether descriptors are checked.
abbrev pub cli_start_command : Fields
cli_start_command = field (Word 8) word_object (
    field RustString string_object
      (field (Word 8) word_object (field (Word 8) word_object (field Bool bool_object no_fields))))

-- `reaper::Command`.
abbrev pub reaper_command : Variants
reaper_command = variant no_fields (variant no_fields no_variants)
