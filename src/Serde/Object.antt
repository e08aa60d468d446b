-- ===== src/Serde/Object.antt =====
-- The traits of multiprocessing/src/serde.rs and platform/unix/ipc.rs: `Object`, what a message is
-- made of, and `TransmissibleObject`, an object that carries no handles. The marker trait is a
-- record of laws here: such an object appends a fixed image and is read back from it.
use sunwalker_box.Common.{
  ℕ, ◌+◌, ◌-◌, ◌≤◌, ◌≡◌, Option, none, some, List, ◌++◌, arith, length, drop, length-append,
  drop-drop, drop-length-append, append_assoc, ap, ◌∙◌, sym, length-drop, append-nil, [],
}
use sunwalker_box.Serde.{Serializer, Deserializer, write}

infixl 5 ◌>>=◌
-- A panic ends the thread: nothing after it runs.
abbrev pub ◌>>=◌ {ℓ κ} : {A : Type ℓ} {B : Type κ} → Option A → (A → Option B) → Option B
none >>= f = none
some a >>= f = f a

pub record Object (A : Type 0) : Type 0 where
  pub serialize_self : A → Serializer → Option Serializer
  pub deserialize_self : Deserializer → Option (A × Deserializer)

abbrev pub serialize : {A : Type 0} ⦃o : Object A⦄ → A → Serializer → Option Serializer
serialize ⦃o⦄ = o.serialize_self

abbrev pub deserialize : {A : Type 0} ⦃o : Object A⦄ → Deserializer → Option (A × Deserializer)
deserialize ⦃o⦄ = o.deserialize_self

-- What is still to be read.
pub record At (d : Deserializer) (rest : List ℕ) : Type 0 where
  pub inside : d.pos ≤ length d.data'
  pub ahead : drop d.pos d.data' ≡ rest

abbrev pub advance : ℕ → Deserializer → Deserializer
advance n d = record d { pos = d.pos + n }

pub At-advance :
    (d : Deserializer) (xs rest : List ℕ) → At d (xs ++ rest) → At (advance (length xs) d) rest
At-advance d xs rest h = record {
  inside =
      let e : length (xs ++ rest) ≡ length d.data' - d.pos =
        ap length (sym h.ahead) ∙ length-drop d.pos d.data' in
      omega (arith, h.inside, e, length-append xs rest);
  ahead =
      sym (drop-drop (length xs) d.pos d.data')
      ∙ ap (drop (length xs)) h.ahead
      ∙ drop-length-append xs rest;
}

pub write-write : (xs ys : List ℕ) (s : Serializer) → write ys (write xs s) ≡ write (xs ++ ys) s
unfolding write
write-write xs ys s = ap (λ z. record s { data' = z }) (append_assoc s.data' xs ys)

pub write-nil : (s : Serializer) → write [] s ≡ s
unfolding write
write-nil s = ap (λ z. record s { data' = z }) (append-nil s.data')

pub advance-zero : (d : Deserializer) → advance 0 d ≡ d
advance-zero d = ap (λ p. record d { pos = p }) (omega arith)

pub At-image :
    {d : Deserializer} (xs ys rest : List ℕ) → At d (xs ++ ys ++ rest) → At d (xs ++ (ys ++ rest))
At-image xs ys rest h = record { inside = h.inside; ahead = h.ahead ∙ append_assoc xs ys rest }

pub advance-advance :
    (d : Deserializer) (xs ys : List ℕ)
    → advance (length ys) (advance (length xs) d) ≡ advance (length (xs ++ ys)) d
advance-advance d xs ys = ap (λ p. record d { pos = p }) (omega (arith, length-append xs ys))

pub record Transmissible (A : Type 0) ⦃o : Object A⦄ : Type 1 where
  pub Valid : A → Type 0
  pub image : A → List ℕ
  pub writes : (a : A) (s : Serializer) → Valid a → serialize a s ≡ some (write (image a) s)
  pub reads :
      (a : A) (d : Deserializer) (rest : List ℕ)
      → Valid a
      → At d (image a ++ rest)
      → deserialize d ≡ some (a, advance (length (image a)) d)

module _ {A B : Type 0} ⦃oa : Object A⦄ ⦃ob : Object B⦄ ⦃ta : Transmissible A⦄
    ⦃tb : Transmissible B⦄ (a : A) (b : B) (va : ta.Valid a) (vb : tb.Valid b) where
  abbrev image_two : List ℕ
  image_two = ta.image a ++ tb.image b

  -- One object after the other.
  pub writes_two :
      (s : Serializer) → (serialize a s >>= λ s'. serialize b s') ≡ some (write image_two s)
  writes_two s =
      rw (ta.writes a s va)
        (tb.writes b (write (ta.image a) s) vb ∙ ap some (write-write (ta.image a) (tb.image b) s))

  module _ (d : Deserializer) (rest : List ℕ) (at : At d (image_two ++ rest)) where
    pub reads_first : deserialize d ≡ some (a, advance (length (ta.image a)) d)
    reads_first = ta.reads a d (tb.image b ++ rest) va (At-image (ta.image a) (tb.image b) rest at)

    pub reads_second :
        deserialize (advance (length (ta.image a)) d) ≡ some (b, advance (length image_two) d)
    reads_second =
        tb.reads b _ rest vb (
          At-advance d (ta.image a) (tb.image b ++ rest)
            (At-image (ta.image a) (tb.image b) rest at))
        ∙ ap (λ z. some (b, z)) (advance-advance d (ta.image a) (tb.image b))
