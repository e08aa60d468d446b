-- ===== src/Serde/Transfers.antt =====
-- What is written by one process and read by another, whose ways to write and to read need not be one
-- `Object`: the addresses in them differ (multiprocessing/src/serde.rs).
use sunwalker_box.Common.{ℕ, ◌≡◌, ap, sym, some, List, [], ◌++◌, length}
use sunwalker_box.Serde.{Serializer, Deserializer, write}
use sunwalker_box.Serde.Object.{Object, Transmissible, At, advance, write-nil, advance-zero}
use sunwalker_box.Serde.Builtins.{unit_object}

-- The writer's `a` becomes these bytes, and they become the reader's `b`.
pub record Transfers {A B : Type 0} (writer : Object A) (reader : Object B) (a : A) (b : B)
    (image : List ℕ) : Type 0 where
  pub writes : (s : Serializer) → writer.serialize_self a s ≡ some (write image s)
  pub reads :
      (d : Deserializer) (rest : List ℕ)
      → At d (image ++ rest)
      → reader.deserialize_self d ≡ some (b, advance (length image) d)

pub Transfers-Transmissible :
    {A : Type 0} (o : Object A) (t : Transmissible A ⦃o = o⦄) (a : A)
    → Transmissible.Valid t a
    → Transfers o o a a (Transmissible.image t a)
Transfers-Transmissible o t a v = record {
  writes = λ s. Transmissible.writes t a s v;
  reads = λ d rest at. Transmissible.reads t a d rest v at;
}

pub Transfers-unit : Transfers unit_object unit_object tt tt []
Transfers-unit = record {
  writes = λ s. ap some (sym (write-nil s));
  reads = λ d rest at. ap (λ z. some (tt, z)) (sym (advance-zero d));
}
