-- ===== src/Serde/Copies.antt =====
-- Objects of multiprocessing/multiprocessing-derive/src/lib.rs and multiprocessing/src/builtins.rs that are
-- written as a message, and read from it.
use sunwalker_box.Common.{◌≡◌, refl, false, none, some, [], if◌then◌else◌, Bool-cases, inl, inr}
use sunwalker_box.Serde.{new, from, write}
use sunwalker_box.Serde.Shared.RoundTrip.{At-from, copy, copy_lem}
use sunwalker_box.Serde.Derive.{Variants, Enum, enum_object}
use sunwalker_box.Serde.Derive.RoundTrip.{VariantsTransmissible, ValidEnum, enum_transmissible}
use sunwalker_box.Serde.Text.{CString, is_utf8, has_nul, deserialize_cstring, cstring_object}
use sunwalker_box.Serde.Text.RoundTrip.{ValidBytes, image_bytes, writes_bytes, reads_bytes}

-- An object of a derived enum with at most 2^64 variants that is written is read back from what was
-- written as it was, where the objects in its fields hold no handles or pointers and are read back so.
pub copy_enum :
    (vs : Variants) (t : VariantsTransmissible vs) (x : Enum vs)
    → ValidEnum vs t 0 x
    → copy ⦃o = enum_object vs⦄ x ≡ some x
copy_enum vs t x v = copy_lem ⦃o = enum_object vs⦄ ⦃tr = enum_transmissible vs t⦄ x v

-- A `CString`, which has no zero in it, that is written is read back from what was written as it was
-- where its bytes are UTF-8. Where they are not, which they need not be, reading panics.
pub copy_cstring :
    (t : CString)
    → ValidBytes t.bytes
    → has_nul t.bytes ≡ false
    → copy t ≡ (if is_utf8 t.bytes then some t else none)
unfolding deserialize_cstring new write from
copy_cstring t v no_nul =
    let written = writes_bytes t.bytes new v in
    let read = reads_bytes t.bytes (from (image_bytes t.bytes) []) [] v (At-from _) in
    elim (Bool-cases (is_utf8 t.bytes)) [
      | inl utf8 ↦ rw written (rw read (rw utf8 (rw no_nul refl)))
      | inr other ↦ rw written (rw read (rw other refl))
    ]
