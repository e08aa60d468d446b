-- ===== src/Serde/Handles.antt =====
-- multiprocessing/src/builtins.rs: objects that own a file descriptor, `OwnedHandle`, `File`,
-- `UnixStream`, `openat::Dir`. The message holds an index, the descriptor travels beside it.
use sunwalker_box.Common.{
  ℕ, ◌+◌, ◌-◌, ◌^◌, ◌<◌, ◌≡◌, Option, none, some, List, [], ◌∷◌, ◌++◌, arith, length, get_elem?,
  set, length-append,
}
use sunwalker_box.Serde.{Serializer, Deserializer, add_handle, drain_handle, write}
use sunwalker_box.Serde.Object.{Object, At, ◌>>=◌, serialize, deserialize}
use sunwalker_box.Serde.Words.{
  Word, word, word_object, word_transmissible, to_ne_bytes, length-to_ne_bytes,
}

pub record OwnedHandle : Type 0 where
  pub raw : ℕ

unfoldable pub serialize_handle : OwnedHandle → Serializer → Option Serializer
serialize_handle h s = do (handle, s') ← add_handle h.raw s; serialize {A = Word 8} (word handle) s'

unfoldable pub deserialize_handle : Deserializer → Option (OwnedHandle × Deserializer)
deserialize_handle d = do
  (handle, d') ← deserialize {A = Word 8} d
  (raw, d'') ← drain_handle handle.value d'
  some (record { raw = raw }, d'')

instance abbrev pub handle_object : Object OwnedHandle
handle_object = record { serialize_self = serialize_handle; deserialize_self = deserialize_handle }

last_index : {A : Type 0} (xs : List A) (x : A) → length (xs ++ x ∷ []) - 1 ≡ length xs
last_index xs x = omega (arith, length-append xs (x ∷ []))

pub writes_handle :
    (h : OwnedHandle) (s : Serializer) (hs : List ℕ)
    → s.handles ≡ some hs
    → length hs < 256 ^ 8
    → serialize_handle h s
      ≡ some (write (to_ne_bytes 8 (length hs)) (record s { handles = some (hs ++ h.raw ∷ []) }))
unfolding serialize_handle add_handle
writes_handle h s hs e short =
    rw (e, add_handle)
      (rw (last_index hs h.raw) (word_transmissible.writes (word (length hs)) _ short))

-- A handle is taken out of the slot that its message names, and the slot is left empty.
pub reads_handle :
    (h : OwnedHandle) (i : ℕ) (d : Deserializer) (rest : List ℕ)
    → i < 256 ^ 8
    → get_elem? d.handles i ≡ some (some h.raw)
    → At d (to_ne_bytes 8 i ++ rest)
    → deserialize_handle d ≡ some (h, record d { pos = d.pos + 8; handles = set d.handles i none })
unfolding deserialize_handle drain_handle
reads_handle h i d rest short slot at =
    rw (word_transmissible.reads (word i) d rest short at)
      (rw (slot, drain_handle) (rw length-to_ne_bytes))
