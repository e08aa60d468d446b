-- ===== src/Serde/Shared.antt =====
-- multiprocessing/src/builtins.rs: `Rc` and `Arc`. The first time a pointer is met its target is
-- written behind a 0; later only the id that `learn_cyclic` gave it.
pub mod RoundTrip
pub mod Nested
use sunwalker_box.Common.{ℕ, ◌+◌, ◌≡◌, Option, none, some, List, length, ◌==◌, if◌then◌else◌}
use sunwalker_box.Serde.{
  Serializer, Deserializer, Value, pointer, Any, learn_cyclic, learn_shared, get_cyclic,
}
use sunwalker_box.Serde.Object.{Object, ◌>>=◌, serialize, deserialize}
use sunwalker_box.Serde.Words.{Word, word, word_object}

-- A `'static` type: its `TypeId`, and its values as `dyn Any`.
pub record Static (A : Type 0) : Type 0 where
  pub type_id : ℕ
  pub to_value : A → Value
  pub of_value : Value → Option A
  pub of-to_value : (a : A) → of_value (to_value a) ≡ some a

pub record Rc (A : Type 0) : Type 0 where
  pub ptr : ℕ
  pub target : A

module _ {A : Type 0} ⦃t : Static A⦄ where
  abbrev pub rc_to_value : Rc A → Value
  rc_to_value rc = pointer rc.ptr (t.to_value rc.target)

  abbrev pub rc_of_value : Value → Option (Rc A)
  rc_of_value (pointer p v) = do a ← t.of_value v; some (record { ptr = p; target = a })
  rc_of_value _ = none

  pub rc_of-to_value : (rc : Rc A) → rc_of_value (rc_to_value rc) ≡ some rc
  rc_of-to_value rc = rw (t.of-to_value rc.target)

  instance abbrev pub rc_static : Static (Rc A)
  rc_static = record {
    type_id = t.type_id + 1;
    to_value = rc_to_value;
    of_value = rc_of_value;
    of-to_value = rc_of-to_value;
  }

module _ {A : Type 0} ⦃o : Object A⦄ ⦃t : Static A⦄ where
  abbrev write_rc : Rc A → Option ℕ × Serializer → Option Serializer
  write_rc rc (none, s) = do s' ← serialize {A = Word 8} (word 0) s; serialize rc.target s'
  write_rc rc (some id, s) = serialize {A = Word 8} (word id) s

  unfoldable pub serialize_rc : Rc A → Serializer → Option Serializer
  serialize_rc rc s = write_rc rc (learn_cyclic rc.ptr s)

  -- A new allocation is named by the place that it gets among the shared objects.
  abbrev pub new_rc : A → Deserializer → Rc A
  new_rc x d = record { ptr = length d.cyclics + 1; target = x }

  abbrev pub learn_rc : A → Deserializer → Rc A × Deserializer
  learn_rc x d =
      let rc = new_rc x d in
      (rc, learn_shared (record { type_id = t.type_id + 1; value = rc_to_value rc }) d)

  abbrev read_rc : ℕ → Deserializer → Option (Rc A × Deserializer)
  read_rc id d =
      if id == 0
      then (deserialize {A = A} d >>= λ (x, d'). some (learn_rc x d'))
      else (get_cyclic (t.type_id + 1) id d >>= λ v. rc_of_value v >>= λ rc. some (rc, d))

  unfoldable pub deserialize_rc : Deserializer → Option (Rc A × Deserializer)
  deserialize_rc d = do (id, d') ← deserialize {A = Word 8} d; read_rc id.value d'

  instance abbrev pub rc_object : Object (Rc A)
  rc_object = record { serialize_self = serialize_rc; deserialize_self = deserialize_rc }
