-- ===== src/Serde/Delayed.antt =====
-- multiprocessing/src/delayed.rs: a value that is sent as a message within the message, and read when
-- it is asked for.
pub mod RoundTrip
use sunwalker_box.Common.{ℕ, Option, none, some, List, [], ◌∷◌, map}
use sunwalker_box.Serde.{
  Serializer, Deserializer, new, add_handle, drain_handles, drain_handle, into_vec, from,
}
use sunwalker_box.Serde.Object.{Object, ◌>>=◌, serialize, deserialize}
use sunwalker_box.Serde.Words.{Word, word, word_object}
use sunwalker_box.Serde.Sequences.{serialize_sequence, deserialize_sequence, push_back}
use sunwalker_box.Serde.Text.{serialize_bytes, deserialize_bytes}

-- The bytes and the handles of a message that was not read yet, or a value.
pub data Delayed (A : Type 0) : Type 0 where
  serialized : List ℕ → List ℕ → Delayed A
  deserialized : A → Delayed A

unfoldable pub add_handles : List ℕ → Serializer → Option (List ℕ × Serializer)
unfolding add_handle
add_handles [] s = some ([], s)
add_handles (handle ∷ handles) s = do
  (id, s') ← add_handle handle s
  (ids, s'') ← add_handles handles s'
  some (id ∷ ids, s'')

unfoldable pub drain_each : List (Word 8) → Deserializer → Option (List ℕ × Deserializer)
unfolding drain_handle
drain_each [] d = some ([], d)
drain_each (id ∷ ids) d = do
  (handle, d') ← drain_handle id.value d
  (handles, d'') ← drain_each ids d'
  some (handle ∷ handles, d'')

module _ {A : Type 0} ⦃o : Object A⦄ where
  -- `Delayed::deserialize`, which panics on a value.
  unfoldable pub deserialize_delayed_value : Delayed A → Option A
  unfolding from
  deserialize_delayed_value (serialized bytes handles) = do
    (value, _) ← deserialize {A = A} (from bytes handles)
    some value
  deserialize_delayed_value (deserialized value) = none

  unfoldable pub serialize_delayed : Delayed A → Serializer → Option Serializer
  unfolding new drain_handles add_handles serialize_sequence serialize_bytes
  serialize_delayed (serialized bytes handles) s = none
  serialize_delayed (deserialized value) s = do
    s1 ← serialize value new
    (drained, s1') ← drain_handles s1
    (handles, s') ← add_handles drained s
    s'' ← serialize_sequence {A = Word 8} (map word handles) s'
    serialize_bytes (into_vec s1') s''

  unfoldable pub deserialize_delayed : Deserializer → Option (Delayed A × Deserializer)
  unfolding drain_each deserialize_sequence deserialize_bytes
  deserialize_delayed d = do
    (ids, d') ← deserialize_sequence {A = Word 8} push_back [] d
    (handles, d'') ← drain_each ids d'
    (bytes, d''') ← deserialize_bytes d''
    some (serialized bytes handles, d''')

instance abbrev pub delayed_object : {A : Type 0} ⦃o : Object A⦄ → Object (Delayed A)
delayed_object = record {
  serialize_self = serialize_delayed;
  deserialize_self = deserialize_delayed;
}
