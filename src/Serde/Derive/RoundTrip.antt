-- ===== src/Serde/Derive/RoundTrip.antt =====
-- An object of a derived type is read back as it was written, where its fields are.
use sunwalker_box.Common.{
  ℕ, suc, ◌+◌, ◌^◌, ◌<◌, ◌≡◌, sym, ap, ◌∙◌, arith, some, List, [], ◌++◌, inl, inr, length,
}
use sunwalker_box.Serde.{Serializer, Deserializer, write}
use sunwalker_box.Serde.Object.{
  Transmissible, At, advance, At-advance, At-image, advance-advance, write-write, write-nil,
  advance-zero,
}
use sunwalker_box.Serde.Words.{word, word_object, word_transmissible, to_ne_bytes}
use sunwalker_box.Serde.Derive.{
  Fields, no_fields, field, Variants, no_variants, variant, Struct, Enum, serialize_fields,
  deserialize_fields, struct_object, serialize_variants, deserialize_variant, deserialize_variants,
  enum_object,
}

-- The laws of each field.
abbrev pub FieldsTransmissible : Fields → Type 1
FieldsTransmissible no_fields = Unit
FieldsTransmissible (field A o fs) = Transmissible A ⦃o = o⦄ × FieldsTransmissible fs

abbrev pub VariantsTransmissible : Variants → Type 1
VariantsTransmissible no_variants = Unit
VariantsTransmissible (variant fs vs) = FieldsTransmissible fs × VariantsTransmissible vs

abbrev pub ValidStruct : (fs : Fields) → FieldsTransmissible fs → Struct fs → Type 0
ValidStruct no_fields t x = Unit
ValidStruct (field A o fs) (ta, ts) (a, rest) = Transmissible.Valid ta a × ValidStruct fs ts rest

abbrev pub image_struct : (fs : Fields) → FieldsTransmissible fs → Struct fs → List ℕ
image_struct no_fields t x = []
image_struct (field A o fs) (ta, ts) (a, rest) = Transmissible.image ta a ++ image_struct fs ts rest

pub writes_struct :
    (fs : Fields) (t : FieldsTransmissible fs) (x : Struct fs) (s : Serializer)
    → ValidStruct fs t x
    → serialize_fields fs x s ≡ some (write (image_struct fs t x) s)
unfolding serialize_fields
writes_struct no_fields t x s v = ap some (sym (write-nil s))
writes_struct (field A o fs) (ta, ts) (a, rest) s (va, vs) = rw (Transmissible.writes ta a s va) (
    writes_struct fs ts rest (write (Transmissible.image ta a) s) vs
    ∙ ap some (write-write (Transmissible.image ta a) (image_struct fs ts rest) s))

pub reads_struct :
    (fs : Fields) (t : FieldsTransmissible fs) (x : Struct fs) (d : Deserializer) (rest : List ℕ)
    → ValidStruct fs t x
    → At d (image_struct fs t x ++ rest)
    → deserialize_fields fs d ≡ some (x, advance (length (image_struct fs t x)) d)
unfolding deserialize_fields
reads_struct no_fields t x d rest v at = ap (λ z. some (tt, z)) (sym (advance-zero d))
reads_struct (field A o fs) (ta, ts) (a, others) d rest (va, vs) at =
    let first = Transmissible.image ta a in
    let second = image_struct fs ts others in
    let at' = At-image first second rest at in
    rw (Transmissible.reads ta a d (second ++ rest) va at') (
      rw
        (reads_struct fs ts others (advance (length first) d) rest vs
          (At-advance d first (second ++ rest) at'))
        (ap (λ z. some ((a, others), z)) (advance-advance d first second)))

abbrev pub ValidEnum : (vs : Variants) → VariantsTransmissible vs → ℕ → Enum vs → Type 0
ValidEnum no_variants t i x = Unit
ValidEnum (variant fs vs) (t, ts) i (inl x) = (i < 256 ^ 8) × ValidStruct fs t x
ValidEnum (variant fs vs) (t, ts) i (inr x) = ValidEnum vs ts (suc i) x

-- The number of the variant, then its fields.
abbrev pub image_enum : (vs : Variants) → VariantsTransmissible vs → ℕ → Enum vs → List ℕ
image_enum no_variants t i x = []
image_enum (variant fs vs) (t, ts) i (inl x) = to_ne_bytes 8 i ++ image_struct fs t x
image_enum (variant fs vs) (t, ts) i (inr x) = image_enum vs ts (suc i) x

pub writes_enum :
    (vs : Variants) (t : VariantsTransmissible vs) (i : ℕ) (x : Enum vs) (s : Serializer)
    → ValidEnum vs t i x
    → serialize_variants vs i x s ≡ some (write (image_enum vs t i x) s)
unfolding serialize_variants
writes_enum no_variants t i x s v = absurd x
writes_enum (variant fs vs) (t, ts) i (inl x) s (fits, v) =
    rw (word_transmissible.writes (word i) s fits) (
      writes_struct fs t x (write (to_ne_bytes 8 i) s) v
      ∙ ap some (write-write (to_ne_bytes 8 i) (image_struct fs t x) s))
writes_enum (variant fs vs) (t, ts) i (inr x) s v = writes_enum vs ts (suc i) x s v

-- What is read at a number is the variant that is written with it.
abbrev pub number_of : (vs : Variants) → Enum vs → ℕ
number_of no_variants x = 0
number_of (variant fs vs) (inl x) = 0
number_of (variant fs vs) (inr x) = suc (number_of vs x)

abbrev pub fields_image : (vs : Variants) → VariantsTransmissible vs → Enum vs → List ℕ
fields_image no_variants t x = []
fields_image (variant fs vs) (t, ts) (inl x) = image_struct fs t x
fields_image (variant fs vs) (t, ts) (inr x) = fields_image vs ts x

image_parts :
    (vs : Variants) (t : VariantsTransmissible vs) (i : ℕ) (x : Enum vs)
    → image_enum vs t i x ≡ to_ne_bytes 8 (i + number_of vs x) ++ fields_image vs t x
image_parts no_variants t i x = absurd x
image_parts (variant fs vs) (t, ts) i (inl x) =
    ap (λ n. to_ne_bytes 8 n ++ image_struct fs t x) (omega arith)
image_parts (variant fs vs) (t, ts) i (inr x) =
    image_parts vs ts (suc i) x ∙ ap (λ n. to_ne_bytes 8 n ++ fields_image vs ts x) (omega arith)

number_fits :
    (vs : Variants) (t : VariantsTransmissible vs) (i : ℕ) (x : Enum vs)
    → ValidEnum vs t i x
    → i + number_of vs x < 256 ^ 8
number_fits no_variants t i x v = absurd x
number_fits (variant fs vs) (t, ts) i (inl x) (fits, v) = omega arith
number_fits (variant fs vs) (t, ts) i (inr x) v = omega (arith, number_fits vs ts (suc i) x v)

reads_variant :
    (vs : Variants) (t : VariantsTransmissible vs) (i : ℕ) (x : Enum vs) (d : Deserializer)
    (rest : List ℕ)
    → ValidEnum vs t i x
    → At d (fields_image vs t x ++ rest)
    → deserialize_variant vs (number_of vs x) d ≡ some (x, advance (length (fields_image vs t x)) d)
unfolding deserialize_variant
reads_variant no_variants t i x d rest v at = absurd x
reads_variant (variant fs vs) (t, ts) i (inl x) d rest (fits, v) at =
    rw (reads_struct fs t x d rest v at)
reads_variant (variant fs vs) (t, ts) i (inr x) d rest v at =
    rw (reads_variant vs ts (suc i) x d rest v at)

-- An object of a derived enum with at most 2^64 variants is read back as it was written, at the start
-- of any message, where the objects in its fields are.
pub reads_enum :
    (vs : Variants) (t : VariantsTransmissible vs) (x : Enum vs) (d : Deserializer) (rest : List ℕ)
    → ValidEnum vs t 0 x
    → At d (image_enum vs t 0 x ++ rest)
    → deserialize_variants vs d ≡ some (x, advance (length (image_enum vs t 0 x)) d)
unfolding deserialize_variants
reads_enum vs t x d rest v at =
    let n = number_of vs x in
    let tag = to_ne_bytes 8 n in
    let parts : image_enum vs t 0 x ≡ tag ++ fields_image vs t x =
      image_parts vs t 0 x ∙ ap (λ k. to_ne_bytes 8 k ++ fields_image vs t x) (omega arith) in
    let at' = At-image tag (fields_image vs t x) rest (rw parts at at) in
    let fits : n < 256 ^ 8 = omega (arith, number_fits vs t 0 x v) in
    rw ((word_transmissible {w = 8}).reads (word n) d (fields_image vs t x ++ rest) fits at') (
      rw
        (reads_variant vs t 0 x (advance (length tag) d) rest v
          (At-advance d tag (fields_image vs t x ++ rest) at'))
        (ap (λ z. some (x, z))
          (advance-advance d tag (fields_image vs t x)
            ∙ ap (λ l. advance (length l) d) (sym parts))))

abbrev pub struct_transmissible :
    (fs : Fields) (t : FieldsTransmissible fs) → Transmissible (Struct fs) ⦃o = struct_object fs⦄
struct_transmissible fs t = record {
  Valid = ValidStruct fs t;
  image = image_struct fs t;
  writes = writes_struct fs t;
  reads = reads_struct fs t;
}

abbrev pub enum_transmissible :
    (vs : Variants) (t : VariantsTransmissible vs) → Transmissible (Enum vs) ⦃o = enum_object vs⦄
enum_transmissible vs t = record {
  Valid = ValidEnum vs t 0;
  image = image_enum vs t 0;
  writes = writes_enum vs t 0;
  reads = reads_enum vs t;
}
