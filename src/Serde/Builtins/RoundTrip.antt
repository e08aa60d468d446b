-- ===== src/Serde/Builtins/RoundTrip.antt =====
-- The laws of a transmissible object for the standard types of plain data.
use sunwalker_box.Common.{
  ℕ, ◌+◌, ◌*◌, ◌/◌, ◌%◌, ◌^◌, ◌<◌, ◌≡◌, Bool, true, false, Option, none, some, List, ◌++◌, ◌⊎◌, inl,
  inr, arith, length, lt→ltb,
}
use sunwalker_box.Serde.{Serializer, Deserializer, write}
use sunwalker_box.Serde.Object.{
  Object, Transmissible, At, advance, writes_two, reads_first, reads_second,
}
use sunwalker_box.Serde.Words.{Word, word, word_object, word_transmissible, to_ne_bytes}
use sunwalker_box.Serde.Builtins.{
  bool_byte, serialize_bool, deserialize_bool, bool_object, RustChar, is_scalar, serialize_char,
  deserialize_char, char_object, unit_object, serialize_pair, deserialize_pair, pair_object,
  serialize_option, deserialize_option, option_object, serialize_result, deserialize_result,
  result_object, Duration, nanos_per_sec, as_secs, subsec_nanos, serialize_duration, new_duration,
  deserialize_duration, duration_object,
}

abbrev pub image_bool : Bool → List ℕ
image_bool b = to_ne_bytes 1 (bool_byte b).value

pub writes_bool : (b : Bool) (s : Serializer) → serialize_bool b s ≡ some (write (image_bool b) s)
unfolding serialize_bool
writes_bool true s = word_transmissible.writes (word 1) s (omega arith)
writes_bool false s = word_transmissible.writes (word 0) s (omega arith)

pub reads_bool :
    (b : Bool) (d : Deserializer) (rest : List ℕ)
    → At d (image_bool b ++ rest)
    → deserialize_bool d ≡ some (b, advance (length (image_bool b)) d)
unfolding deserialize_bool
reads_bool true d rest at = rw (word_transmissible.reads (word 1) d rest (omega arith) at)
reads_bool false d rest at = rw (word_transmissible.reads (word 0) d rest (omega arith) at)

instance abbrev pub bool_transmissible : Transmissible Bool
bool_transmissible = record {
  Valid = λ _. Unit;
  image = image_bool;
  writes = λ b s _. writes_bool b s;
  reads = λ b d rest _ at. reads_bool b d rest at;
}

scalar_word : (c : ℕ) → is_scalar c ≡ true → c < 4294967296
scalar_word c h = ground arith

pub reads_char :
    (c : RustChar) (d : Deserializer) (rest : List ℕ)
    → is_scalar c.code_point ≡ true
    → At d (to_ne_bytes 4 c.code_point ++ rest)
    → deserialize_char d ≡ some (c, advance (length (to_ne_bytes 4 c.code_point)) d)
unfolding deserialize_char
reads_char c d rest h at =
    rw (word_transmissible.reads (word c.code_point) d rest (scalar_word _ h) at) (rw h)

pub writes_char :
    (c : RustChar) (s : Serializer)
    → is_scalar c.code_point ≡ true
    → serialize_char c s ≡ some (write (to_ne_bytes 4 c.code_point) s)
unfolding serialize_char
writes_char c s h = word_transmissible.writes (word c.code_point) s (scalar_word _ h)

instance abbrev pub char_transmissible : Transmissible RustChar
char_transmissible = record {
  Valid = λ c. is_scalar c.code_point ≡ true;
  image = λ c. to_ne_bytes 4 c.code_point;
  writes = writes_char;
  reads = reads_char;
}

module _ {A B : Type 0} ⦃oa : Object A⦄ ⦃ob : Object B⦄ ⦃ta : Transmissible A⦄
    ⦃tb : Transmissible B⦄ where
  abbrev pub ValidPair : A × B → Type 0
  ValidPair (a, b) = ta.Valid a × tb.Valid b

  abbrev pub image_pair : A × B → List ℕ
  image_pair (a, b) = ta.image a ++ tb.image b

  pub writes_pair :
      (p : A × B) (s : Serializer)
      → ValidPair p
      → serialize_pair p s ≡ some (write (image_pair p) s)
  unfolding serialize_pair
  writes_pair (a, b) s (va, vb) = writes_two a b va vb s

  pub reads_pair :
      (p : A × B) (d : Deserializer) (rest : List ℕ)
      → ValidPair p
      → At d (image_pair p ++ rest)
      → deserialize_pair d ≡ some (p, advance (length (image_pair p)) d)
  unfolding deserialize_pair
  reads_pair (a, b) d rest (va, vb) at =
      rw (reads_first a b va vb d rest at) (rw (reads_second a b va vb d rest at))

  instance abbrev pub pair_transmissible : Transmissible (A × B)
  pair_transmissible = record {
    Valid = ValidPair;
    image = image_pair;
    writes = writes_pair;
    reads = reads_pair;
  }

module _ {A : Type 0} ⦃o : Object A⦄ ⦃t : Transmissible A⦄ where
  abbrev pub ValidOption : Option A → Type 0
  ValidOption none = Unit
  ValidOption (some x) = t.Valid x

  abbrev pub image_option : Option A → List ℕ
  image_option none = image_bool false
  image_option (some x) = image_bool true ++ t.image x

  pub writes_option :
      (x : Option A) (s : Serializer)
      → ValidOption x
      → serialize_option x s ≡ some (write (image_option x) s)
  unfolding serialize_option
  writes_option none s v = writes_bool false s
  writes_option (some x) s v = writes_two true x tt v s

  pub reads_option :
      (x : Option A) (d : Deserializer) (rest : List ℕ)
      → ValidOption x
      → At d (image_option x ++ rest)
      → deserialize_option d ≡ some (x, advance (length (image_option x)) d)
  unfolding deserialize_option
  reads_option none d rest v at = rw (reads_bool false d rest at)
  reads_option (some x) d rest v at =
      rw (reads_first true x tt v d rest at) (rw (reads_second true x tt v d rest at))

  instance abbrev pub option_transmissible : Transmissible (Option A)
  option_transmissible = record {
    Valid = ValidOption;
    image = image_option;
    writes = writes_option;
    reads = reads_option;
  }

module _ {A E : Type 0} ⦃oa : Object A⦄ ⦃oe : Object E⦄ ⦃ta : Transmissible A⦄
    ⦃te : Transmissible E⦄ where
  abbrev pub ValidResult : A ⊎ E → Type 0
  ValidResult (inl x) = ta.Valid x
  ValidResult (inr e) = te.Valid e

  abbrev pub image_result : A ⊎ E → List ℕ
  image_result (inl x) = image_bool true ++ ta.image x
  image_result (inr e) = image_bool false ++ te.image e

  pub writes_result :
      (x : A ⊎ E) (s : Serializer)
      → ValidResult x
      → serialize_result x s ≡ some (write (image_result x) s)
  unfolding serialize_result
  writes_result (inl x) s v = writes_two true x tt v s
  writes_result (inr e) s v = writes_two false e tt v s

  pub reads_result :
      (x : A ⊎ E) (d : Deserializer) (rest : List ℕ)
      → ValidResult x
      → At d (image_result x ++ rest)
      → deserialize_result d ≡ some (x, advance (length (image_result x)) d)
  unfolding deserialize_result
  reads_result (inl x) d rest v at =
      rw (reads_first true x tt v d rest at) (rw (reads_second true x tt v d rest at))
  reads_result (inr e) d rest v at =
      rw (reads_first false e tt v d rest at) (rw (reads_second false e tt v d rest at))

  instance abbrev pub result_transmissible : Transmissible (A ⊎ E)
  result_transmissible = record {
    Valid = ValidResult;
    image = image_result;
    writes = writes_result;
    reads = reads_result;
  }

-- `as_secs` fits a `u64` for every duration that the type can hold.
as_secs_fits :
    (n : ℕ) → n < 18446744073709551616 * 1000000000 → n / 1000000000 < 18446744073709551616
as_secs_fits n h = omega arith

subsec_fits : (n : ℕ) → n % 1000000000 < 4294967296
subsec_fits n = omega arith

rebuild : (n : ℕ) → n / 1000000000 * 1000000000 + n % 1000000000 ≡ n
rebuild n = omega arith

module _ (t : Duration) (fits : t.nanos < 18446744073709551616 * nanos_per_sec) where
  secs_fit : as_secs t < 256 ^ 8
  secs_fit = as_secs_fits t.nanos fits

  nanos_fit : subsec_nanos t < 256 ^ 4
  nanos_fit = subsec_fits t.nanos

  new_duration_lem : new_duration (as_secs t) (subsec_nanos t) ≡ some t
  unfolding new_duration
  new_duration_lem = rw (rebuild t.nanos) (rw (lt→ltb _ _ fits))

abbrev pub image_duration : Duration → List ℕ
image_duration t = to_ne_bytes 8 (as_secs t) ++ to_ne_bytes 4 (subsec_nanos t)

pub writes_duration :
    (t : Duration) (s : Serializer)
    → t.nanos < 18446744073709551616 * nanos_per_sec
    → serialize_duration t s ≡ some (write (image_duration t) s)
unfolding serialize_duration
writes_duration t s h =
    writes_two {A = Word 8} {B = Word 4} (word (as_secs t)) (word (subsec_nanos t)) (secs_fit t h)
      (nanos_fit t h) s

-- Every duration that the type can hold is read back from its seconds and its nanoseconds.
pub reads_duration :
    (t : Duration) (d : Deserializer) (rest : List ℕ)
    → t.nanos < 18446744073709551616 * nanos_per_sec
    → At d (image_duration t ++ rest)
    → deserialize_duration d ≡ some (t, advance (length (image_duration t)) d)
unfolding deserialize_duration
reads_duration t d rest h at =
    rw
      (reads_first {A = Word 8} {B = Word 4} (word (as_secs t)) (word (subsec_nanos t))
        (secs_fit t h) (nanos_fit t h) d rest at)
      (rw
        (reads_second {A = Word 8} {B = Word 4} (word (as_secs t)) (word (subsec_nanos t))
          (secs_fit t h) (nanos_fit t h) d rest at)
        (rw (new_duration_lem t h)))

instance abbrev pub duration_transmissible : Transmissible Duration
duration_transmissible = record {
  Valid = λ t. t.nanos < 18446744073709551616 * nanos_per_sec;
  image = image_duration;
  writes = writes_duration;
  reads = reads_duration;
}
