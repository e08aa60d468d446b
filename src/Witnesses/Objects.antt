-- ===== src/Witnesses/Objects.antt =====
-- Objects of multiprocessing/src/builtins.rs that are written and read.
use sunwalker_box.Common.{◌≡◌, refl, Option, none, some, [], ◌∷◌, if◌then◌else◌, arith}
use sunwalker_box.Serde.{Value, number}
use sunwalker_box.Serde.Words.{Word, word, word_object, word_transmissible}
use sunwalker_box.Serde.Builtins.{pair_object}
use sunwalker_box.Serde.Text.{CString, cstring_object, is_utf8, has_nul}
use sunwalker_box.Serde.Copies.{copy_cstring}
use sunwalker_box.Serde.Shared.{Static, Rc, rc_static, rc_object}
use sunwalker_box.Serde.Shared.RoundTrip.{rc, copy, copy_shared}

abbrev value_number : Value → Option (Word 1)
value_number (number n) = some (word n)
value_number _ = none

instance abbrev word_static : Static (Word 1)
word_static = record {
  type_id = 0;
  to_value = λ w. number w.value;
  of_value = value_number;
  of-to_value = λ w. refl;
}

copy_shared_example :
    copy {A = Rc (Word 1) × Rc (Word 1)} (rc 4096 (word 5), rc 4096 (word 5))
    ≡ some (rc 1 (word 5), rc 1 (word 5))
copy_shared_example = copy_shared 4096 (word 5) (omega arith)

-- A lone 0xFF is no UTF-8.
abbrev latin : CString
latin = record { bytes = 104 ∷ 255 ∷ [] }

copy_cstring_example : copy latin ≡ (if is_utf8 latin.bytes then some latin else none)
unfolding has_nul
copy_cstring_example =
    copy_cstring latin (record { short = omega arith; bytes = (omega arith, (omega arith, tt)) })
      refl
