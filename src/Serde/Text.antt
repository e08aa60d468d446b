-- ===== src/Serde/Text.antt =====
-- multiprocessing/src/builtins.rs: `String`, `CString`, `OsString` and `PathBuf`, by their bytes.
pub mod RoundTrip
use sunwalker_box.Common.{
  ℕ, zero, suc, Bool, true, false, ◌&&◌, ◌||◌, Option, none, some, List, [], ◌∷◌, map, leb, ltb,
  ◌==◌, if◌then◌else◌,
}
use sunwalker_box.Serde.{Serializer, Deserializer}
use sunwalker_box.Serde.Object.{Object, ◌>>=◌}
use sunwalker_box.Serde.Words.{Word, word, word_object}
use sunwalker_box.Serde.Sequences.{serialize_sequence, deserialize_sequence, push_back}

-- `Vec<u8>`.
unfoldable pub serialize_bytes : List ℕ → Serializer → Option Serializer
serialize_bytes bs s = serialize_sequence {A = Word 1} (map word bs) s

unfoldable pub deserialize_bytes : Deserializer → Option (List ℕ × Deserializer)
deserialize_bytes d = do
  (ws, d') ← deserialize_sequence {A = Word 1} push_back [] d
  some (map (λ w. w.value) ws, d')

-- What a lead byte announces: how many bytes follow, and the range of the first of them.
unfoldable pub utf8_lead : ℕ → Option (ℕ × ℕ × ℕ)
utf8_lead b =
    if ltb b 0x80
    then some (0, 0x80, 0xBF)
    else if leb 0xC2 b && leb b 0xDF
    then some (1, 0x80, 0xBF)
    else if b == 0xE0
    then some (2, 0xA0, 0xBF)
    else if (leb 0xE1 b && leb b 0xEC) || (leb 0xEE b && leb b 0xEF)
    then some (2, 0x80, 0xBF)
    else if b == 0xED
    then some (2, 0x80, 0x9F)
    else if b == 0xF0
    then some (3, 0x90, 0xBF)
    else if leb 0xF1 b && leb b 0xF3
    then some (3, 0x80, 0xBF)
    else if b == 0xF4
    then some (3, 0x80, 0x8F)
    else none

-- `from_utf8`: `n` bytes are still due, the next of them between `lo` and `hi`.
unfoldable pub utf8_scan : ℕ → ℕ → ℕ → List ℕ → Bool
utf8_scan zero lo hi [] = true
utf8_scan (suc n) lo hi [] = false
utf8_scan zero lo hi (b ∷ bs) = elim (utf8_lead b) [
  | none ↦ false
  | some (n, lo', hi') ↦ utf8_scan n lo' hi' bs
]
utf8_scan (suc n) lo hi (b ∷ bs) = elim (leb lo b && leb b hi) [
  | true ↦ utf8_scan n 0x80 0xBF bs
  | false ↦ false
]

abbrev pub is_utf8 : List ℕ → Bool
is_utf8 bs = utf8_scan 0 0x80 0xBF bs

unfoldable pub has_nul : List ℕ → Bool
has_nul [] = false
has_nul (b ∷ bs) = b == 0 || has_nul bs

pub record RustString : Type 0 where
  pub bytes : List ℕ

pub record CString : Type 0 where
  pub bytes : List ℕ

pub record OsString : Type 0 where
  pub bytes : List ℕ

unfoldable pub deserialize_string : Deserializer → Option (RustString × Deserializer)
deserialize_string d = do
  (bs, d') ← deserialize_bytes d
  if is_utf8 bs then some (record { bytes = bs }, d') else none

instance abbrev pub string_object : Object RustString
string_object = record {
  serialize_self = λ t s. serialize_bytes t.bytes s;
  deserialize_self = deserialize_string;
}

-- Both the UTF-8 decoding and `CString::new` may panic.
unfoldable pub deserialize_cstring : Deserializer → Option (CString × Deserializer)
deserialize_cstring d = do
  (bs, d') ← deserialize_bytes d
  if is_utf8 bs then (if has_nul bs then none else some (record { bytes = bs }, d')) else none

instance abbrev pub cstring_object : Object CString
cstring_object = record {
  serialize_self = λ t s. serialize_bytes t.bytes s;
  deserialize_self = deserialize_cstring;
}

-- `OsString`, and `PathBuf`, which is sent as one.
unfoldable pub deserialize_osstring : Deserializer → Option (OsString × Deserializer)
deserialize_osstring d = do (bs, d') ← deserialize_bytes d; some (record { bytes = bs }, d')

instance abbrev pub osstring_object : Object OsString
osstring_object = record {
  serialize_self = λ t s. serialize_bytes t.bytes s;
  deserialize_self = deserialize_osstring;
}
