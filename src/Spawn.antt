-- ===== src/Spawn.antt =====
-- multiprocessing/src/fns.rs, and what `#[entrypoint]` of multiprocessing-derive/src/lib.rs makes of a
-- function: its arguments are bound to it one by one, and the closure is an object that another process
-- can read and call.
pub mod Closures
pub mod Process
pub mod Main
pub mod Images
pub mod Joins
pub mod Calls
use sunwalker_box.Common.{ℕ, Option, some, List, [], ◌∷◌}
use sunwalker_box.Serde.{Serializer, Deserializer}
use sunwalker_box.Serde.Object.{Object, ◌>>=◌}
use sunwalker_box.Serde.Builtins.{unit_object}
use sunwalker_box.Serde.Delayed.{Delayed, deserialized, deserialize_delayed_value, delayed_object}
use sunwalker_box.Serde.Traits.{Image, Boxed, box_object}

abbrev pub Tuple : {Arg : Type 0} → (Arg → Type 0) → List Arg → Type 0
Tuple Val [] = Unit {0}
Tuple Val (a ∷ ts) = Val a × Tuple Val ts

-- The functions that are marked `#[entrypoint]`, and the types in their signatures.
pub record Program : Type 1 where
  pub Arg : Type 0
  pub Val : Arg → Type 0
  pub arg_object : (a : Arg) → Object (Val a)
  pub Entry : Type 0
  pub args_of : Entry → List Arg
  pub Output : Entry → Type 0
  pub output_object : (e : Entry) → Object (Output e)
  pub body : (e : Entry) → Tuple Val (args_of e) → Output e

-- A function whose first argument is given.
pub record Bound (F H : Type 0) : Type 0 where
  pub func : F
  pub head : H

abbrev pub bind : {F H : Type 0} → F → H → Bound F H
bind func head = record { func = func; head = head }

-- `derive(Object)` on it: the function, then the argument.
module _ {F H : Type 0} (of : Object F) (oh : Object H) where
  unfoldable pub serialize_bound : Bound F H → Serializer → Option Serializer
  serialize_bound b s = do s' ← of.serialize_self b.func s; oh.serialize_self b.head s'

  unfoldable pub deserialize_bound : Deserializer → Option (Bound F H × Deserializer)
  deserialize_bound d = do
    (func, d') ← of.deserialize_self d
    (head, d'') ← oh.deserialize_self d'
    some (bind func head, d'')

  abbrev pub bound_object : Object (Bound F H)
  bound_object = record { serialize_self = serialize_bound; deserialize_self = deserialize_bound }

-- `call_once` of a bound function puts its argument before the others.
unfoldable pub call_bound : {F H As R : Type 0} → (F → H × As → R) → Bound F H → As → R
call_bound call b args = call b.func (b.head, args)

module _ {Arg : Type 0} {Val : Arg → Type 0} (object : (a : Arg) → Object (Val a)) where
  -- The type of a function with these arguments given: `Bound<Bound<F, A>, B>` and so on.
  abbrev pub BoundAll : List Arg → Type 0 → Type 0
  BoundAll [] F = F
  BoundAll (a ∷ ts) F = BoundAll ts (Bound F (Val a))

  abbrev pub bound_all_object : (ts : List Arg) {F : Type 0} → Object F → Object (BoundAll ts F)
  bound_all_object [] of = of
  bound_all_object (a ∷ ts) of = bound_all_object ts (bound_object of (object a))

  -- `.bind(a).bind(b)` and so on.
  unfoldable pub bind_all : (ts : List Arg) {F : Type 0} → F → Tuple Val ts → BoundAll ts F
  bind_all [] func args = func
  bind_all (a ∷ ts) func (head, args) = bind_all ts (bind func head) args

  -- The call of what is left without arguments.
  unfoldable pub call_all :
      (ts : List Arg) {F R : Type 0} → (F → Tuple Val ts → R) → BoundAll ts F → R
  unfolding call_bound
  call_all [] call func = call func tt
  call_all (a ∷ ts) call func = call_all ts (call_bound call) func

-- A process of the program: where it has the vtables of the closures, and those of the entries.
pub record ProcessImage (p : Program) : Type 0 where
  pub closures : Image p.Entry
  pub entries : Image p.Entry

module _ (p : Program) where
  -- The type that stands for the function has no fields, nor has its wrapper and the box around it.
  abbrev pub Closure : p.Entry → Type 0
  Closure e = BoundAll p.arg_object (p.args_of e) (Unit {0})

  abbrev pub closure_object : (e : p.Entry) → Object (Closure e)
  closure_object e = bound_all_object p.arg_object (p.args_of e) unit_object

  abbrev pub BoxedClosure : Type 0
  BoxedClosure = Boxed p.Entry Closure

  -- `E_..`, whose only field with a content is `func`.
  abbrev pub EntryPoint : p.Entry → Type 0
  EntryPoint e = Delayed BoxedClosure

  abbrev pub BoxedEntry : Type 0
  BoxedEntry = Boxed p.Entry EntryPoint

  module _ (image : ProcessImage p) where
    abbrev pub boxed_closure_object : Object BoxedClosure
    boxed_closure_object = box_object image.closures Closure closure_object

    abbrev pub entry_point_object : (e : p.Entry) → Object (EntryPoint e)
    entry_point_object e = delayed_object ⦃o = boxed_closure_object⦄

    abbrev pub entry_object : Object BoxedEntry
    entry_object = box_object image.entries EntryPoint entry_point_object

  -- The entry that `spawn_with_flags` makes.
  unfoldable pub new_entry : (e : p.Entry) → Tuple p.Val (p.args_of e) → BoxedEntry
  unfolding bind_all
  new_entry e args = (e, deserialized (e, bind_all p.arg_object (p.args_of e) tt args))

  -- The function that was bound, called.
  unfoldable pub call_closure : (c : BoxedClosure) → p.Output c.0
  unfolding call_all
  call_closure (e, closure) = call_all p.arg_object (p.args_of e) (λ _ args. p.body e args) closure
