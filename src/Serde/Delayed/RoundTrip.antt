-- ===== src/Serde/Delayed/RoundTrip.antt =====
-- A delayed value of multiprocessing/src/delayed.rs arrives.
use sunwalker_box.Common.{ℕ, ◌≡◌, refl, ap, ◌∙◌, Option, some, List, [], ◌++◌, length, arith}
use sunwalker_box.Serde.{Serializer, Deserializer, new, write, drain_handles, from}
use sunwalker_box.Serde.Object.{
  Object, Transmissible, At, At-image, At-advance, advance, advance-advance, write-write, ◌>>=◌,
}
use sunwalker_box.Serde.Words.{Word, word_object, word_transmissible}
use sunwalker_box.Serde.Sequences.RoundTrip.{image_sequence, writes_sequence, reads_vec}
use sunwalker_box.Serde.Text.RoundTrip.{ValidBytes, image_bytes, writes_bytes, reads_bytes}
use sunwalker_box.Serde.Shared.RoundTrip.{At-from}
use sunwalker_box.Serde.Delayed.{
  Delayed, serialized, deserialized, add_handles, drain_each, deserialize_delayed_value,
  serialize_delayed, deserialize_delayed, delayed_object,
}
use sunwalker_box.Serde.Transfers.{Transfers, Transfers-Transmissible}

-- No handles, and the bytes of the message within.
abbrev no_handles : List (Word 8)
no_handles = []

abbrev pub image_delayed : List ℕ → List ℕ
image_delayed bs = image_sequence no_handles ++ image_bytes bs

module _ {A B : Type 0} (writer : Object A) (reader : Object B) (a : A) (b : B) (bs : List ℕ)
    (tr : Transfers writer reader a b bs) (vb : ValidBytes bs) where
  writes_delayed :
      (s : Serializer)
      → serialize_delayed ⦃o = writer⦄ (deserialized a) s ≡ some (write (image_delayed bs) s)
  unfolding serialize_delayed drain_handles add_handles new write
  writes_delayed s = rw (tr.writes new) (
      rw (writes_sequence no_handles s ((omega arith), tt)) (
        writes_bytes bs (write (image_sequence no_handles) s) vb
        ∙ ap some (write-write (image_sequence no_handles) (image_bytes bs) s)))

  reads_delayed :
      (d : Deserializer) (rest : List ℕ)
      → At d (image_delayed bs ++ rest)
      → deserialize_delayed ⦃o = reader⦄ d
        ≡ some (serialized bs [], advance (length (image_delayed bs)) d)
  unfolding deserialize_delayed drain_each
  reads_delayed d rest at =
      let none_sent = image_sequence no_handles in
      let arrived : Delayed B = serialized bs [] in
      let here = At-image none_sent (image_bytes bs) rest at in
      rw (reads_vec no_handles d (image_bytes bs ++ rest) ((omega arith), tt) here) (
        rw
          (reads_bytes bs (advance (length none_sent) d) rest vb
            (At-advance d none_sent (image_bytes bs ++ rest) here))
          (ap (λ z. some (arrived, z)) (advance-advance d none_sent (image_bytes bs))))

  -- Delayed, a value arrives as its bytes.
  pub Transfers-delayed :
      Transfers
        (delayed_object ⦃o = writer⦄)
        (delayed_object ⦃o = reader⦄)
        (deserialized a)
        (serialized bs [])
        (image_delayed bs)
  Transfers-delayed = record { writes = writes_delayed; reads = reads_delayed }

  pub deserialize_delayed_value-serialized :
      deserialize_delayed_value ⦃o = reader⦄ (serialized bs []) ≡ some b
  unfolding deserialize_delayed_value
  deserialize_delayed_value-serialized =
      let at : At (from bs []) (bs ++ []) = At-from bs in rw (tr.reads (from bs []) [] at) refl

-- A value is delayed, sent in a message, received and read.
unfoldable copy_delayed : {A : Type 0} ⦃o : Object A⦄ → A → Option A
copy_delayed {A} a = serialize_delayed (deserialized a) new >>= λ s.
    deserialize_delayed {A = A} (from s.data' []) >>= λ (x, _). deserialize_delayed_value x

module _ {A : Type 0} ⦃o : Object A⦄ ⦃t : Transmissible A⦄ (a : A) (v : t.Valid a)
    (vb : ValidBytes (t.image a)) where
  -- A value that can be transmitted without handles, in fewer than 2^64 bytes, is sent within a message
  -- and comes back when it is asked for.
  copy_delayed_lem : copy_delayed a ≡ some a
  unfolding copy_delayed new write
  copy_delayed_lem =
      let bs = t.image a in
      let tr = Transfers-Transmissible o t a v in
      let delayed = Transfers-delayed o o a a bs tr vb in
      rw (delayed.writes new) (
        rw (delayed.reads (from (image_delayed bs) []) [] (At-from (image_delayed bs)))
          (deserialize_delayed_value-serialized o o a a bs tr vb))
