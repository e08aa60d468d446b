-- ===== src/Serde/Builtins.antt =====
-- multiprocessing/src/builtins.rs: the `Object` of the standard types that hold plain data.
pub mod RoundTrip
use sunwalker_box.Common.{
  ℕ, zero, suc, ◌+◌, ◌*◌, ◌/◌, ◌%◌, Bool, true, false, ◌&&◌, ◌||◌, Option, none, some, List, [],
  ◌∷◌, ◌⊎◌, inl, inr, length, ltb, leb, ◌==◌, if◌then◌else◌,
}
use sunwalker_box.Serde.{Serializer, Deserializer}
use sunwalker_box.Serde.Object.{Object, ◌>>=◌, serialize, deserialize}
use sunwalker_box.Serde.Words.{Word, word, word_object}

-- `bool` is one byte; any byte but 0 reads as `true`.
abbrev pub bool_byte : Bool → Word 1
bool_byte true = word 1
bool_byte false = word 0

unfoldable pub serialize_bool : Bool → Serializer → Option Serializer
serialize_bool b s = serialize (bool_byte b) s

unfoldable pub deserialize_bool : Deserializer → Option (Bool × Deserializer)
deserialize_bool d = do
  (byte, d') ← deserialize {A = Word 1} d
  some (if byte.value == 0 then false else true, d')

instance abbrev pub bool_object : Object Bool
bool_object = record { serialize_self = serialize_bool; deserialize_self = deserialize_bool }

-- `char` is its code point as a `u32`; `char::from_u32(..).unwrap()` panics outside Unicode scalars.
pub record RustChar : Type 0 where
  pub code_point : ℕ

abbrev pub is_scalar : ℕ → Bool
is_scalar c = ltb c 0xD800 || (leb 0xE000 c && ltb c 0x110000)

unfoldable pub serialize_char : RustChar → Serializer → Option Serializer
serialize_char c s = serialize {A = Word 4} (word c.code_point) s

unfoldable pub deserialize_char : Deserializer → Option (RustChar × Deserializer)
deserialize_char d = do
  (code, d') ← deserialize {A = Word 4} d
  if is_scalar code.value then some (record { code_point = code.value }, d') else none

instance abbrev pub char_object : Object RustChar
char_object = record { serialize_self = serialize_char; deserialize_self = deserialize_char }

-- `()`, and `PhantomData` alike.
instance abbrev pub unit_object : Object (Unit {0})
unit_object = record { serialize_self = λ _ s. some s; deserialize_self = λ d. some (tt, d) }

module _ {A B : Type 0} ⦃oa : Object A⦄ ⦃ob : Object B⦄ where
  unfoldable pub serialize_pair : A × B → Serializer → Option Serializer
  serialize_pair (a, b) s = do s' ← serialize a s; serialize b s'

  unfoldable pub deserialize_pair : Deserializer → Option ((A × B) × Deserializer)
  deserialize_pair d = do
    (a, d') ← deserialize {A = A} d
    (b, d'') ← deserialize {A = B} d'
    some ((a, b), d'')

  instance abbrev pub pair_object : Object (A × B)
  pair_object = record { serialize_self = serialize_pair; deserialize_self = deserialize_pair }

module _ {A : Type 0} ⦃o : Object A⦄ where
  unfoldable pub serialize_option : Option A → Serializer → Option Serializer
  serialize_option none s = serialize false s
  serialize_option (some x) s = do s' ← serialize true s; serialize x s'

  abbrev read_option : Bool → Deserializer → Option (Option A × Deserializer)
  read_option true d = do (x, d') ← deserialize {A = A} d; some (some x, d')
  read_option false d = some (none, d)

  unfoldable pub deserialize_option : Deserializer → Option (Option A × Deserializer)
  deserialize_option d = do (tag, d') ← deserialize {A = Bool} d; read_option tag d'

  instance abbrev pub option_object : Object (Option A)
  option_object = record {
    serialize_self = serialize_option;
    deserialize_self = deserialize_option;
  }

module _ {A E : Type 0} ⦃oa : Object A⦄ ⦃oe : Object E⦄ where
  -- `Result`: the tag is `true` for `Ok`.
  unfoldable pub serialize_result : A ⊎ E → Serializer → Option Serializer
  serialize_result (inl x) s = do s' ← serialize true s; serialize x s'
  serialize_result (inr e) s = do s' ← serialize false s; serialize e s'

  abbrev read_result : Bool → Deserializer → Option ((A ⊎ E) × Deserializer)
  read_result true d = do (x, d') ← deserialize {A = A} d; some (inl x, d')
  read_result false d = do (e, d') ← deserialize {A = E} d; some (inr e, d')

  unfoldable pub deserialize_result : Deserializer → Option ((A ⊎ E) × Deserializer)
  deserialize_result d = do (tag, d') ← deserialize {A = Bool} d; read_result tag d'

  instance abbrev pub result_object : Object (A ⊎ E)
  result_object = record {
    serialize_self = serialize_result;
    deserialize_self = deserialize_result;
  }

-- `std::time::Duration` in nanoseconds: whole seconds as a `u64`, the rest as a `u32`.
pub record Duration : Type 0 where
  pub nanos : ℕ

abbrev pub nanos_per_sec : ℕ
nanos_per_sec = 1_000_000_000

abbrev pub as_secs : Duration → ℕ
as_secs t = t.nanos / nanos_per_sec

abbrev pub subsec_nanos : Duration → ℕ
subsec_nanos t = t.nanos % nanos_per_sec

unfoldable pub serialize_duration : Duration → Serializer → Option Serializer
serialize_duration t s = do
  s' ← serialize {A = Word 8} (word (as_secs t)) s
  serialize {A = Word 4} (word (subsec_nanos t)) s'

-- `Duration::new` carries nanoseconds past a second over, and panics where the seconds overflow.
unfoldable pub new_duration : ℕ → ℕ → Option Duration
new_duration secs nanos =
    let total = secs * nanos_per_sec + nanos in
    if ltb total (18446744073709551616 * nanos_per_sec)
    then some (record { nanos = total })
    else none

unfoldable pub deserialize_duration : Deserializer → Option (Duration × Deserializer)
unfolding new_duration
deserialize_duration d = do
  (secs, d') ← deserialize {A = Word 8} d
  (nanos, d'') ← deserialize {A = Word 4} d'
  t ← new_duration secs.value nanos.value
  some (t, d'')

instance abbrev pub duration_object : Object Duration
duration_object = record {
  serialize_self = serialize_duration;
  deserialize_self = deserialize_duration;
}

-- `NonZeroUsize` and its kin: `Self::new(..).unwrap()` panics at zero.
pub record NonZero (w : ℕ) : Type 0 where
  pub get : ℕ

unfoldable pub serialize_nonzero : (w : ℕ) → NonZero w → Serializer → Option Serializer
serialize_nonzero w n s = serialize {A = Word w} (word n.get) s

unfoldable pub deserialize_nonzero : (w : ℕ) → Deserializer → Option (NonZero w × Deserializer)
deserialize_nonzero w d = do
  (n, d') ← deserialize {A = Word w} d
  if n.value == 0 then none else some (record { get = n.value }, d')

instance abbrev pub nonzero_object : {w : ℕ} → Object (NonZero w)
nonzero_object {w} = record {
  serialize_self = serialize_nonzero w;
  deserialize_self = deserialize_nonzero w;
}
