-- ===== src/Serde.antt =====
-- multiprocessing/src/serde.rs: the serializer and the deserializer that every message goes through.
-- `none` is a panic. Bytes are numbers below 256, a raw handle and an address are numbers.
pub mod Copies
pub mod Object
pub mod Words
pub mod Builtins
pub mod Sequences
pub mod Text
pub mod Handles
pub mod Shared
pub mod Derive
pub mod Delayed
pub mod Transfers
pub mod Traits
use sunwalker_box.Common.{
  ℕ, zero, suc, ◌+◌, ◌-◌, ◌≡◌, Bool, true, false, Option, none, some, List, [], ◌∷◌, ◌++◌, map,
  length, get_elem?, set, take, drop, leb, ◌==◌, if◌then◌else◌,
}
use mathlib.Core.Option

pub record Serializer : Type 0 where
  pub data' : List ℕ
  pub handles : Option (List ℕ)
  pub cyclic_ids : List (ℕ × ℕ)

-- What `Box<dyn Any>` holds: a value with the tag of its type.
pub data Value : Type 0 where
  number : ℕ → Value
  bytes : List ℕ → Value
  pair : Value → Value → Value
  pointer : ℕ → Value → Value

pub record Any : Type 0 where
  pub type_id : ℕ
  pub value : Value

pub record Deserializer : Type 0 where
  pub data' : List ℕ
  pub handles : List (Option ℕ)
  pub pos : ℕ
  pub cyclics : List Any

unfoldable pub new : Serializer
new = record { data' = []; handles = some []; cyclic_ids = [] }

unfoldable pub write : List ℕ → Serializer → Serializer
write xs s = record s { data' = s.data' ++ xs }

-- Panics after `drain_handles`.
unfoldable pub add_handle : ℕ → Serializer → Option (ℕ × Serializer)
add_handle handle s = elim s.handles [
  | none ↦ none
  | some hs ↦ some (length (hs ++ handle ∷ []) - 1, record s { handles = some (hs ++ handle ∷ []) })
]

unfoldable pub drain_handles : Serializer → Option (List ℕ × Serializer)
drain_handles s = elim s.handles [ none ↦ none | some hs ↦ some (hs, record s { handles = none }) ]

-- `HashMap::entry` on the map of addresses.
unfoldable pub lookup_id : ℕ → List (ℕ × ℕ) → Option ℕ
lookup_id ptr [] = none
lookup_id ptr ((p, id) ∷ ids) = if p == ptr then some id else lookup_id ptr ids

-- The id of an address that was seen before, or `none` for a new one, which gets the next id.
unfoldable pub learn_cyclic : ℕ → Serializer → Option ℕ × Serializer
unfolding lookup_id
learn_cyclic ptr s = elim (lookup_id ptr s.cyclic_ids) [
  | some id ↦ (some id, s)
  | none ↦ (none, record s { cyclic_ids = (ptr, length s.cyclic_ids + 1) ∷ s.cyclic_ids })
]

abbrev pub into_vec : Serializer → List ℕ
into_vec s = s.data'

unfoldable pub from : List ℕ → List ℕ → Deserializer
from xs handles = record { data' = xs; handles = map some handles; pos = 0; cyclics = [] }

-- `clone_from_slice(&self.data[pos..pos + n])` panics when the slice ends past the data.
unfoldable pub read : ℕ → Deserializer → Option (List ℕ × Deserializer)
read n d =
    if leb (d.pos + n) (length d.data')
    then some (take n (drop d.pos d.data'), record d { pos = d.pos + n })
    else none

-- Panics out of range, and on a slot that is already empty.
unfoldable pub drain_handle : ℕ → Deserializer → Option (ℕ × Deserializer)
drain_handle idx d = elim (get_elem? d.handles idx) [
  | none ↦ none
  | some none ↦ none
  | some (some handle) ↦ some (handle, record d { handles = set d.handles idx none })
]

unfoldable pub learn_shared : Any → Deserializer → Deserializer
learn_shared obj d = record d { cyclics = d.cyclics ++ obj ∷ [] }

-- `id` counts from 1: `self.cyclics[id.get() - 1]`; the downcast fails at another type.
unfoldable pub get_cyclic : ℕ → ℕ → Deserializer → Option Value
get_cyclic type_id id d = elim (get_elem? d.cyclics (id - 1)) [
  | none ↦ none
  | some obj ↦ if obj.type_id == type_id then some obj.value else none
]
