-- ===== src/Serde/Traits/RoundTrip.antt =====
-- A trait object of multiprocessing/src/builtins.rs crosses from one process to another of the same
-- program, which may be loaded elsewhere.
use sunwalker_box.Common.{ℕ, ◌+◌, ◌%◌, ◌^◌, ◌<◌, ◌≡◌, ap, sym, ◌∙◌, some, List, ◌++◌, length, arith}
use sunwalker_box.Serde.{write}
use sunwalker_box.Serde.Object.{Object, At-image, At-advance, advance, advance-advance, write-write}
use sunwalker_box.Serde.Words.{word, word_object, word_transmissible, to_ne_bytes}
use sunwalker_box.Serde.Transfers.{Transfers}
use sunwalker_box.Serde.Traits.{
  Image, word_size, wrapping_sub, wrapping_add, serialize_metadata, deserialize_metadata,
  serialize_box, deserialize_box, box_object,
}

-- The loader moves the program as a whole: each vtable keeps its distance from that of `BaseType`.
pub record IsLoaded {Ty : Type 0} (distance : Ty → ℕ) (image : Image Ty) : Type 0 where
  pub base_fits : image.base < word_size
  pub distance_fits : (t : Ty) → distance t < word_size
  pub vtable_lem : (t : Ty) → image.vtable_of t ≡ (image.base + distance t) % word_size
  pub type_lem : (t : Ty) → image.type_at (image.vtable_of t) ≡ some t

-- The distance of two addresses is what was added.
sub-add :
    (base distance : ℕ)
    → base < word_size
    → distance < word_size
    → wrapping_sub ((base + distance) % word_size) base ≡ distance
sub-add base distance hb hd = omega arith

add-sub : (base distance : ℕ) → wrapping_add distance base ≡ (base + distance) % word_size
add-sub base distance = omega arith

module _ {Ty : Type 0} (distance : Ty → ℕ) (image : Image Ty)
    (loaded : IsLoaded distance image) where
  distance_written : (t : Ty) → wrapping_sub (image.vtable_of t) image.base ≡ distance t
  distance_written t =
      ap (λ v. wrapping_sub v image.base) (loaded.vtable_lem t)
      ∙ sub-add image.base (distance t) loaded.base_fits (loaded.distance_fits t)

  vtable_found : (t : Ty) → image.type_at (wrapping_add (distance t) image.base) ≡ some t
  vtable_found t =
      ap image.type_at (add-sub image.base (distance t) ∙ sym (loaded.vtable_lem t))
      ∙ loaded.type_lem t

module _ {Ty : Type 0} {El : Ty → Type 0} (distance : Ty → ℕ) (ours theirs : Image Ty)
    (loaded : IsLoaded distance ours) (loaded' : IsLoaded distance theirs)
    (writer reader : (t : Ty) → Object (El t)) where
  pub Transfers-box :
      (t : Ty) (x y : El t) (bs : List ℕ)
      → Transfers (writer t) (reader t) x y bs
      → Transfers
          (box_object ours El writer)
          (box_object theirs El reader)
          (t, x)
          (t, y)
          (to_ne_bytes 8 (distance t) ++ bs)
  unfolding serialize_box deserialize_box serialize_metadata deserialize_metadata
  Transfers-box t x y bs tr =
      let head : List ℕ = to_ne_bytes 8 (distance t) in
      let fits : distance t < 256 ^ 8 = omega (arith, loaded.distance_fits t) in
      record {
        writes = λ s. rw (distance_written distance ours loaded t) (
            rw (word_transmissible.writes (word (distance t)) s fits)
              (tr.writes (write head s) ∙ ap some (write-write head bs s)));
        reads = λ d rest at.
            let here = At-image head bs rest at in
            rw (word_transmissible.reads (word (distance t)) d (bs ++ rest) fits here) (
              rw (vtable_found distance theirs loaded' t) (
                rw (tr.reads (advance (length head) d) rest (At-advance d head (bs ++ rest) here))
                  (ap (λ z. some ((t, y), z)) (advance-advance d head bs))));
      }
