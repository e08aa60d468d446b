-- ===== src/Serde/Shared/RoundTrip.antt =====
-- What shared pointers keep of their sharing, when their targets hold no pointers.
use sunwalker_box.Common.{
  ℕ, suc, ◌+◌, ◌-◌, ◌^◌, ◌<◌, ◌≡◌, ◌≢◌, refl, false, Option, none, some, List, [], ◌∷◌, ◌++◌, arith,
  length, get_elem?, ◌==◌, ==_refl, ap, sym, append-nil,
}
use sunwalker_box.Serde.{
  Serializer, Deserializer, Any, new, from, write, lookup_id, learn_cyclic, learn_shared,
  get_cyclic,
}
use sunwalker_box.Serde.Object.{
  Object, Transmissible, At, At-advance, At-image, advance, ◌>>=◌, write-write, serialize,
  deserialize, writes_two, reads_first, reads_second,
}
use sunwalker_box.Serde.Words.{Word, word, word_object, word_transmissible, to_ne_bytes}
use sunwalker_box.Serde.Builtins.{serialize_pair, deserialize_pair, pair_object}
use sunwalker_box.Serde.Shared.{
  Static, Rc, rc_static, rc_to_value, rc_of-to_value, serialize_rc, learn_rc, deserialize_rc,
  rc_object,
}

abbrev pub W : ℕ → List ℕ
W n = to_ne_bytes 8 n

-- The table of ids after a new pointer.
abbrev pub with_id : ℕ → Serializer → Serializer
with_id p s = record s { cyclic_ids = (p, length s.cyclic_ids + 1) ∷ s.cyclic_ids }

get_cyclic_lem :
    (id : ℕ) (d : Deserializer) (obj : Any)
    → get_elem? d.cyclics id ≡ some obj
    → get_cyclic obj.type_id (suc id) d ≡ some obj.value
unfolding get_cyclic
get_cyclic_lem id d obj found =
    let same : suc id - 1 ≡ id = omega arith in
    rw (same, get_cyclic) (rw (found, get_cyclic) (rw (==_refl obj.type_id)))

wrong_type :
    (id : ℕ) (d : Deserializer) (obj : Any) (type_id : ℕ)
    → get_elem? d.cyclics id ≡ some obj
    → (obj.type_id == type_id) ≡ false
    → get_cyclic type_id (suc id) d ≡ none
unfolding get_cyclic
wrong_type id d obj type_id found other =
    let same : suc id - 1 ≡ id = omega arith in
    rw (same, get_cyclic) (rw (found, get_cyclic) (rw other))

suc-ne-zero : (n : ℕ) → (suc n == 0) ≡ false
suc-ne-zero n = ground arith

module _ {A : Type 0} ⦃o : Object A⦄ ⦃t : Static A⦄ (rc : Rc A) where
  pub serialize_rc_seen :
      (id : ℕ) (s : Serializer)
      → lookup_id rc.ptr s.cyclic_ids ≡ some id
      → id < 256 ^ 8
      → serialize_rc rc s ≡ some (write (W id) s)
  unfolding serialize_rc learn_cyclic
  serialize_rc_seen id s e fits = rw (e, learn_cyclic) (word_transmissible.writes (word id) s fits)

  -- The first meeting, whatever the target is.
  pub serialize_rc_fresh :
      (s : Serializer)
      → lookup_id rc.ptr s.cyclic_ids ≡ none
      → serialize_rc rc s ≡ serialize rc.target (write (W 0) (with_id rc.ptr s))
  unfolding serialize_rc learn_cyclic
  serialize_rc_fresh s e =
      rw (e, learn_cyclic)
        (rw ((word_transmissible {w = 8}).writes (word 0) (with_id rc.ptr s) (omega arith)))

  pub deserialize_rc_fresh :
      (d : Deserializer) (rest : List ℕ)
      → At d (W 0 ++ rest)
      → deserialize_rc {A = A} d
        ≡ (deserialize {A = A} (advance (length (W 0)) d) >>= λ (x, d'). some (learn_rc x d'))
  unfolding deserialize_rc
  deserialize_rc_fresh d rest at =
      rw ((word_transmissible {w = 8}).reads (word 0) d rest (omega arith) at)

  pub deserialize_rc_seen :
      (id : ℕ) (d : Deserializer) (rest : List ℕ)
      → suc id < 256 ^ 8
      → get_elem? d.cyclics id ≡ some (record { type_id = t.type_id + 1; value = rc_to_value rc })
      → At d (W (suc id) ++ rest)
      → deserialize_rc {A = A} d ≡ some (rc, advance (length (W (suc id))) d)
  unfolding deserialize_rc
  deserialize_rc_seen id d rest fits found at =
      rw (word_transmissible.reads (word (suc id)) d rest fits at) (
        rw (get_cyclic_lem id (advance (length (W (suc id))) d) _ found)
          (rw (suc-ne-zero id) (rw rc_of-to_value)))

  -- The id of an object of another type is a panic.
  pub deserialize_rc_panics :
      (id : ℕ) (d : Deserializer) (rest : List ℕ) (obj : Any)
      → suc id < 256 ^ 8
      → get_elem? d.cyclics id ≡ some obj
      → (obj.type_id == t.type_id + 1) ≡ false
      → At d (W (suc id) ++ rest)
      → deserialize_rc {A = A} d ≡ none
  unfolding deserialize_rc
  deserialize_rc_panics id d rest obj fits found other at =
      rw (word_transmissible.reads (word (suc id)) d rest fits at) (
        rw (wrong_type id (advance (length (W (suc id))) d) obj _ found other)
          (rw (suc-ne-zero id)))

  module _ ⦃tr : Transmissible A⦄ (v : tr.Valid rc.target) where
    abbrev pub image_new : List ℕ
    image_new = W 0 ++ tr.image rc.target

    pub serialize_rc_new :
        (s : Serializer)
        → lookup_id rc.ptr s.cyclic_ids ≡ none
        → serialize_rc rc s ≡ some (write image_new (with_id rc.ptr s))
    unfolding serialize_rc learn_cyclic
    serialize_rc_new s e =
        rw (e, learn_cyclic)
          (writes_two {A = Word 8} (word 0) rc.target (omega arith) v (with_id rc.ptr s))

    pub deserialize_rc_new :
        (d : Deserializer) (rest : List ℕ)
        → At d (image_new ++ rest)
        → deserialize_rc {A = A} d ≡ some (learn_rc rc.target (advance (length image_new) d))
    unfolding deserialize_rc
    deserialize_rc_new d rest at =
        rw (reads_first {A = Word 8} (word 0) rc.target (omega arith) v d rest at)
          (rw (reads_second {A = Word 8} (word 0) rc.target (omega arith) v d rest at))

abbrev pub rc : {A : Type 0} → ℕ → A → Rc A
rc p x = record { ptr = p; target = x }

-- Write to a fresh serializer, and read the bytes back in a fresh deserializer.
abbrev pub copy : {A : Type 0} ⦃o : Object A⦄ → A → Option A
copy {A} a = serialize a new >>= λ s. deserialize {A = A} (from s.data' []) >>= λ (b, _). some b

pub At-from : (xs : List ℕ) → At (from xs []) (xs ++ [])
unfolding from
At-from xs = record { inside = omega arith; ahead = sym (append-nil xs) }

-- What is read back as it was written, as one message.
pub copy_lem :
    {A : Type 0} ⦃o : Object A⦄ ⦃tr : Transmissible A⦄ (a : A) → tr.Valid a → copy a ≡ some a
unfolding new write from
copy_lem ⦃tr⦄ a v =
    rw (tr.writes a new v) (rw (tr.reads a (from (tr.image a) []) [] v (At-from (tr.image a))))

pub At-learn :
    {d : Deserializer} {rest : List ℕ} (obj : Any) → At d rest → At (learn_shared obj d) rest
unfolding learn_shared
At-learn obj h = record { inside = h.inside; ahead = h.ahead }

module _ {A : Type 0} ⦃o : Object A⦄ ⦃t : Static A⦄ ⦃tr : Transmissible A⦄ (p : ℕ) (x : A)
    (v : tr.Valid x) where
  abbrev first : List ℕ
  first = image_new (rc p x) v

  abbrev start : List ℕ → Deserializer
  start rest = from (first ++ rest) []

  abbrev learned : List ℕ → Rc A × Deserializer
  learned rest = learn_rc x (advance (length first) (start rest))

  reads_start : (rest : List ℕ) → deserialize_rc {A = A} (start rest) ≡ some (learned rest)
  reads_start rest =
      deserialize_rc_new (rc p x) v (start rest) (rest ++ [])
        (At-image first rest [] (At-from (first ++ rest)))

  At-learned : (rest : List ℕ) → At (learned rest).1 (rest ++ [])
  At-learned rest = At-learn _ (
      At-advance (start rest) first (rest ++ []) (At-image first rest [] (At-from (first ++ rest))))

  writes_shared : serialize_pair (rc p x, rc p x) new ≡ some (write (first ++ W 1) (with_id p new))
  unfolding serialize_pair new lookup_id write
  writes_shared = rw (serialize_rc_new (rc p x) v new refl) (
      rw (serialize_rc_seen (rc p x) 1 (write first (with_id p new)) (rw (==_refl p)) (omega arith))
        (ap some (write-write first (W 1) (with_id p new))))

  -- Two handles of one allocation come back as two handles of one allocation, where the target is a
  -- valid value of a type whose objects hold no handles or pointers and are read back as they were written.
  pub copy_shared : copy {A = Rc A × Rc A} (rc p x, rc p x) ≡ some (rc 1 x, rc 1 x)
  unfolding new deserialize_pair write from learn_shared
  copy_shared = rw writes_shared (
      rw (reads_start (W 1)) (
        rw (
          deserialize_rc_seen (rc 1 x) 0 (learned (W 1)).1 [] (omega arith) refl
            (At-learned (W 1)))))

  module _ (q : ℕ) (y : A) (vy : tr.Valid y) (distinct : p ≢ q) where
    writes_distinct :
        serialize_pair (rc p x, rc q y) new
        ≡ some (write (first ++ image_new (rc q y) vy) (with_id q (with_id p new)))
    unfolding serialize_pair new lookup_id write
    writes_distinct = rw (serialize_rc_new (rc p x) v new refl) (
        rw (serialize_rc_new (rc q y) vy (write first (with_id p new)) (ground arith))
          (ap some (write-write first (image_new (rc q y) vy) (with_id q (with_id p new)))))

    -- Two allocations come back as two allocations.
    pub copy_distinct : copy {A = Rc A × Rc A} (rc p x, rc q y) ≡ some (rc 1 x, rc 2 y)
    unfolding new deserialize_pair write from learn_shared
    copy_distinct =
        let rest = image_new (rc q y) vy in
        rw writes_distinct (
          rw (reads_start rest)
            (rw (deserialize_rc_new (rc q y) vy (learned rest).1 [] (At-learned rest))))
