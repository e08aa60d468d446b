-- ===== src/Serde/Words.antt =====
-- `to_ne_bytes` and `from_ne_bytes` on x86-64, and the macro `impl_serialize_for_primitive` of
-- multiprocessing/src/builtins.rs: an unsigned word of `w` bytes, the low byte first.
use native.Mathlib.Nat.{pow-zero, pow-suc, div-lt_iff_lt-mul}
use sunwalker_box.Common.{
  ℕ, zero, suc, ◌+◌, ◌-◌, ◌*◌, ◌/◌, ◌%◌, ◌^◌, ◌≤◌, ◌<◌, ◌≡◌, refl, Option, some, List, [], ◌∷◌,
  ◌++◌, arith, length, take, drop, le→leb, length-append, take-length-append, ap, sym, ◌∙◌,
  length-drop,
}
use sunwalker_box.Serde.{Serializer, Deserializer, write, read}
use sunwalker_box.Serde.Object.{Object, Transmissible, At, advance, ◌>>=◌}

unfoldable pub to_ne_bytes : ℕ → ℕ → List ℕ
to_ne_bytes zero n = []
to_ne_bytes (suc w) n = (n % 256) ∷ to_ne_bytes w (n / 256)

unfoldable pub from_ne_bytes : List ℕ → ℕ
from_ne_bytes [] = 0
from_ne_bytes (b ∷ bs) = b + 256 * from_ne_bytes bs

-- A `u8`, `u32`, `u64`, `usize` is a word of 1, 4, 8 and 8 bytes.
pub record Word (w : ℕ) : Type 0 where
  pub value : ℕ

abbrev pub word : {w : ℕ} → ℕ → Word w
word n = record { value = n }

pub length-to_ne_bytes : (w n : ℕ) → length (to_ne_bytes w n) ≡ w
unfolding to_ne_bytes
length-to_ne_bytes zero n = refl
length-to_ne_bytes (suc w) n = ap suc (length-to_ne_bytes w (n / 256))

div-fits : (w n : ℕ) → n < 256 ^ suc w → n / 256 < 256 ^ w
div-fits w n h = (div-lt_iff_lt-mul (omega arith)).1 (rw (← pow-suc) h)

pub from-to_ne_bytes : (w n : ℕ) → n < 256 ^ w → from_ne_bytes (to_ne_bytes w n) ≡ n
unfolding to_ne_bytes from_ne_bytes
from-to_ne_bytes zero n h = omega (arith, rw pow-zero at h)
from-to_ne_bytes (suc w) n h = omega (arith, from-to_ne_bytes w (n / 256) (div-fits w n h))

-- Reading as many bytes as a known prefix has gives that prefix.
pub read_lem :
    (xs rest : List ℕ) (n : ℕ) (d : Deserializer)
    → length xs ≡ n
    → At d (xs ++ rest)
    → read n d ≡ some (xs, advance n d)
unfolding read
read_lem xs rest n d e h =
    let l : length (xs ++ rest) ≡ length d.data' - d.pos =
      ap length (sym h.ahead) ∙ length-drop d.pos d.data' in
    let fits : d.pos + n ≤ length d.data' = omega (arith, h.inside, l, e, length-append xs rest) in
    let prefix : take n (drop d.pos d.data') ≡ xs =
      ap (take n) h.ahead ∙ ap (λ k. take k (xs ++ rest)) (sym e) ∙ take-length-append xs rest in
    rw (le→leb _ _ fits) (ap (λ z. some (z, advance n d)) prefix)

-- The macro body: `s.write(&self.to_ne_bytes())`, and a read of `size_of::<Self>()` bytes.
unfoldable pub serialize_word : (w : ℕ) → Word w → Serializer → Option Serializer
serialize_word w n s = some (write (to_ne_bytes w n.value) s)

unfoldable pub deserialize_word : (w : ℕ) → Deserializer → Option (Word w × Deserializer)
deserialize_word w d = do (buf, d') ← read w d; some (word (from_ne_bytes buf), d')

instance abbrev pub word_object : {w : ℕ} → Object (Word w)
word_object {w} = record {
  serialize_self = serialize_word w;
  deserialize_self = deserialize_word w;
}

pub serialize_word_lem :
    (w : ℕ) (n : Word w) (s : Serializer)
    → serialize_word w n s ≡ some (write (to_ne_bytes w n.value) s)
unfolding serialize_word
serialize_word_lem w n s = refl

pub deserialize-serialize_word :
    (w : ℕ) (n : Word w) (d : Deserializer) (rest : List ℕ)
    → n.value < 256 ^ w
    → At d (to_ne_bytes w n.value ++ rest)
    → deserialize_word w d ≡ some (n, advance (length (to_ne_bytes w n.value)) d)
unfolding deserialize_word
deserialize-serialize_word w n d rest h at =
    rw (read_lem (to_ne_bytes w n.value) rest w d (length-to_ne_bytes w n.value) at)
      (rw (from-to_ne_bytes w n.value h, length-to_ne_bytes) refl)

instance abbrev pub word_transmissible : {w : ℕ} → Transmissible (Word w)
word_transmissible {w} = record {
  Valid = λ n. n.value < 256 ^ w;
  image = λ n. to_ne_bytes w n.value;
  writes = λ n s h. serialize_word_lem w n s;
  reads = deserialize-serialize_word w;
}
