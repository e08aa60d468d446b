-- ===== src/Serde/Text/RoundTrip.antt =====
-- Texts are read back as they were written, where reading does not panic.
use sunwalker_box.Common.{
  ℕ, suc, ◌^◌, ◌<◌, ◌≡◌, refl, Bool, true, ◌&&◌, ltb, arith, some, List, [], ◌∷◌, ◌++◌, map, length,
  ap,
}
use sunwalker_box.Serde.{Serializer, Deserializer, write}
use sunwalker_box.Serde.Object.{Transmissible, At, advance}
use sunwalker_box.Serde.Words.{Word, word, word_object, word_transmissible}
use sunwalker_box.Serde.Sequences.RoundTrip.{
  All, image_sequence, ValidSequence, writes_sequence, reads_vec,
}
use sunwalker_box.Serde.Text.{
  serialize_bytes, deserialize_bytes, is_utf8, RustString, OsString, deserialize_string,
  string_object, deserialize_osstring, osstring_object,
}

abbrev pub IsByte : ℕ → Type 0
IsByte b = b < 256

-- A text of bytes, short enough for a `usize`.
pub record ValidBytes (bs : List ℕ) : Type 0 where
  pub short : length bs < 256 ^ 8
  pub bytes : All IsByte bs

abbrev pub is_bytes : List ℕ → Bool
is_bytes [] = true
is_bytes (b ∷ bs) = ltb b 256 && is_bytes bs

pub is_bytes_lem : (bs : List ℕ) → is_bytes bs ≡ true → All IsByte bs
is_bytes_lem [] h = tt
is_bytes_lem (b ∷ bs) h = (ground arith, is_bytes_lem bs (ground arith))

abbrev pub image_bytes : List ℕ → List ℕ
image_bytes bs = image_sequence {A = Word 1} (map word bs)

length-map-word : (bs : List ℕ) → length (map (word {w = 1}) bs) ≡ length bs
length-map-word [] = refl
length-map-word (b ∷ bs) = ap suc (length-map-word bs)

pub value-word : (bs : List ℕ) → map (λ (w : Word 1). w.value) (map word bs) ≡ bs
value-word [] = refl
value-word (b ∷ bs) = ap (λ l. b ∷ l) (value-word bs)

valid_words : (bs : List ℕ) → All IsByte bs → All (λ (w : Word 1). w.value < 256 ^ 1) (map word bs)
valid_words [] h = tt
valid_words (b ∷ bs) (hb, hbs) = (hb, valid_words bs hbs)

pub valid_bytes : (bs : List ℕ) → ValidBytes bs → ValidSequence {A = Word 1} (map word bs)
valid_bytes bs v = (rw (length-map-word bs) v.short, valid_words bs v.bytes)

pub writes_bytes :
    (bs : List ℕ) (s : Serializer)
    → ValidBytes bs
    → serialize_bytes bs s ≡ some (write (image_bytes bs) s)
unfolding serialize_bytes
writes_bytes bs s v = writes_sequence {A = Word 1} (map word bs) s (valid_bytes bs v)

pub reads_bytes :
    (bs : List ℕ) (d : Deserializer) (rest : List ℕ)
    → ValidBytes bs
    → At d (image_bytes bs ++ rest)
    → deserialize_bytes d ≡ some (bs, advance (length (image_bytes bs)) d)
unfolding deserialize_bytes
reads_bytes bs d rest v at =
    rw (reads_vec {A = Word 1} (map word bs) d rest (valid_bytes bs v) at)
      (ap (λ z. some (z, advance (length (image_bytes bs)) d)) (value-word bs))

pub reads_string :
    (t : RustString) (d : Deserializer) (rest : List ℕ)
    → ValidBytes t.bytes × (is_utf8 t.bytes ≡ true)
    → At d (image_bytes t.bytes ++ rest)
    → deserialize_string d ≡ some (t, advance (length (image_bytes t.bytes)) d)
unfolding deserialize_string
reads_string t d rest (v, u) at = rw (reads_bytes t.bytes d rest v at) (rw u)

instance abbrev pub string_transmissible : Transmissible RustString
string_transmissible = record {
  Valid = λ t. ValidBytes t.bytes × (is_utf8 t.bytes ≡ true);
  image = λ t. image_bytes t.bytes;
  writes = λ t s v. writes_bytes t.bytes s v.0;
  reads = reads_string;
}

pub reads_osstring :
    (t : OsString) (d : Deserializer) (rest : List ℕ)
    → ValidBytes t.bytes
    → At d (image_bytes t.bytes ++ rest)
    → deserialize_osstring d ≡ some (t, advance (length (image_bytes t.bytes)) d)
unfolding deserialize_osstring
reads_osstring t d rest v at = rw (reads_bytes t.bytes d rest v at)

instance abbrev pub osstring_transmissible : Transmissible OsString
osstring_transmissible = record {
  Valid = λ t. ValidBytes t.bytes;
  image = λ t. image_bytes t.bytes;
  writes = λ t s v. writes_bytes t.bytes s v;
  reads = reads_osstring;
}
