-- ===== src/Serde/Shared/Nested.antt =====
-- A shared pointer inside a shared pointer: `serialize_self` numbers the outer one first, and
-- `deserialize_self` the inner one.
use mathlib.Core.Path.{subst}
use sunwalker_box.Common.{
  ℕ, ◌+◌, ◌≡◌, ◌≢◌, refl, none, some, List, [], ◌++◌, arith, length, ap, ◌∙◌, append_assoc,
}
use sunwalker_box.Serde.{Deserializer, Any, new, from, write, lookup_id, learn_shared}
use sunwalker_box.Serde.Object.{Object, Transmissible, At, At-advance, advance, write-write}
use sunwalker_box.Serde.Words.{word_object, word_transmissible}
use sunwalker_box.Serde.Builtins.{serialize_pair, deserialize_pair, pair_object}
use sunwalker_box.Serde.Shared.{Static, Rc, rc_static, rc_to_value, learn_rc, rc_object}
use sunwalker_box.Serde.Shared.RoundTrip.{
  W, with_id, image_new, serialize_rc_seen, serialize_rc_new, deserialize_rc_new, rc, copy, At-from,
  At-learn, serialize_rc_fresh, deserialize_rc_fresh, deserialize_rc_panics,
}

module _ {A : Type 0} ⦃o : Object A⦄ ⦃t : Static A⦄ ⦃tr : Transmissible A⦄ (p q : ℕ) (x : A)
    (v : tr.Valid x) (distinct : p ≢ q) where
  abbrev inner : Rc A
  inner = rc q x

  abbrev outer : Rc (Rc A)
  outer = rc p inner

  abbrev inner_image : List ℕ
  inner_image = image_new inner v

  abbrev message : List ℕ
  message = W 0 ++ (inner_image ++ W 1)

  writes_nested :
      serialize_pair (outer, outer) new ≡ some (write message (with_id q (with_id p new)))
  unfolding serialize_pair new lookup_id write
  writes_nested = rw (serialize_rc_fresh outer new refl) (
      rw (serialize_rc_new inner v (write (W 0) (with_id p new)) (ground arith)) (
        rw
          (serialize_rc_seen outer 1 (write inner_image (with_id q (write (W 0) (with_id p new))))
            (ground arith) (omega arith))
          (ap some (
            write-write inner_image (W 1) (write (W 0) (with_id q (with_id p new)))
            ∙ write-write (W 0) (inner_image ++ W 1) (with_id q (with_id p new))))))

  abbrev after_tag : Deserializer
  after_tag = advance (length (W 0)) (from message [])

  regroup : message ++ [] ≡ W 0 ++ (inner_image ++ (W 1 ++ []))
  regroup =
      append_assoc (W 0) (inner_image ++ W 1) []
      ∙ ap (λ l. W 0 ++ l) (append_assoc inner_image (W 1) [])

  At-tag : At after_tag (inner_image ++ (W 1 ++ []))
  At-tag =
      At-advance (from message []) (W 0) (inner_image ++ (W 1 ++ []))
        (subst (At (from message [])) regroup (At-from message))

  -- What the inner pointer leaves among the shared objects.
  abbrev inner_any : Any
  inner_any = record { type_id = t.type_id + 1; value = rc_to_value (rc 1 x) }

  abbrev learned : Deserializer
  learned =
      let (back, d) = learn_rc x (advance (length inner_image) after_tag) in
      (learn_rc {A = Rc A} back d).1

  -- The second handle of the outer pointer names the inner one, and reading panics.
  pub copy_nested : copy {A = Rc (Rc A) × Rc (Rc A)} (outer, outer) ≡ none
  unfolding new deserialize_pair write from learn_shared
  copy_nested = rw writes_nested (
      rw
        (deserialize_rc_fresh outer (from message []) _
          (subst (At (from message [])) regroup (At-from message)))
        (rw (deserialize_rc_new inner v after_tag (W 1 ++ []) At-tag) (
          rw (
            deserialize_rc_panics outer 0 learned [] inner_any (omega arith) refl (ground arith)
              (At-learn _ (At-learn _ (At-advance after_tag inner_image (W 1 ++ []) At-tag)))))))
