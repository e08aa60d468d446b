-- ===== src/Spawn/Closures.antt =====
-- A closure of multiprocessing/src/fns.rs calls its function with the arguments that were bound to it,
-- also in another process.
use sunwalker_box.Common.{ℕ, ◌≡◌, refl, ap, ◌∙◌, some, List, [], ◌∷◌, ◌++◌, length}
use sunwalker_box.Serde.{write}
use sunwalker_box.Serde.Object.{
  Object, Transmissible, At-image, At-advance, advance, advance-advance, write-write,
}
use sunwalker_box.Serde.Builtins.{unit_object}
use sunwalker_box.Serde.Transfers.{Transfers, Transfers-Transmissible}
use sunwalker_box.Spawn.{
  Tuple, Program, bind, serialize_bound, deserialize_bound, bound_object, call_bound,
  bound_all_object, bind_all, call_all, call_closure,
}

module _ {Arg : Type 0} {Val : Arg → Type 0} (object : (a : Arg) → Object (Val a)) where
  call_all-bind_all :
      (ts : List Arg) {F R : Type 0} (call : F → Tuple Val ts → R) (func : F) (args : Tuple Val ts)
      → call_all object ts call (bind_all object ts func args) ≡ call func args
  unfolding call_all bind_all call_bound
  call_all-bind_all [] call func args = refl
  call_all-bind_all (a ∷ ts) call func (head, args) =
      call_all-bind_all ts (call_bound call) (bind func head) args

module _ {F H : Type 0} (of of' : Object F) (oh oh' : Object H) (func : F) (head : H)
    (bs cs : List ℕ) where
  Transfers-bound :
      Transfers of of' func func bs
      → Transfers oh oh' head head cs
      → Transfers
          (bound_object of oh)
          (bound_object of' oh')
          (bind func head)
          (bind func head)
          (bs ++ cs)
  unfolding serialize_bound deserialize_bound
  Transfers-bound tf th = record {
    writes = λ s. rw (tf.writes s) (th.writes (write bs s) ∙ ap some (write-write bs cs s));
    reads = λ d rest at.
        let here = At-image bs cs rest at in
        rw (tf.reads d (cs ++ rest) here) (
          rw (th.reads (advance (length bs) d) rest (At-advance d bs (cs ++ rest) here))
            (ap (λ z. some (bind func head, z)) (advance-advance d bs cs)));
  }

-- The arguments of the program that can be sent, without handles.
abbrev pub ArgsTransmissible : Program → Type 1
ArgsTransmissible p = (a : p.Arg) → Transmissible (p.Val a) ⦃o = p.arg_object a⦄

module _ {Arg : Type 0} {Val : Arg → Type 0} (object : (a : Arg) → Object (Val a))
    (sent : (a : Arg) → Transmissible (Val a) ⦃o = object a⦄) where
  abbrev pub ValidArgs : (ts : List Arg) → Tuple Val ts → Type 0
  ValidArgs [] args = Unit {0}
  ValidArgs (a ∷ ts) (head, args) = Transmissible.Valid (sent a) head × ValidArgs ts args

  -- The images of the arguments, in their order, after what is written before them.
  abbrev pub image_bound : (ts : List Arg) → List ℕ → Tuple Val ts → List ℕ
  image_bound [] before args = before
  image_bound (a ∷ ts) before (head, args) =
      image_bound ts (before ++ Transmissible.image (sent a) head) args

  pub Transfers-bind_all :
      (ts : List Arg) {F : Type 0} (of : Object F) (func : F) (before : List ℕ)
      (args : Tuple Val ts)
      → Transfers of of func func before
      → ValidArgs ts args
      → Transfers
          (bound_all_object object ts of)
          (bound_all_object object ts of)
          (bind_all object ts func args)
          (bind_all object ts func args)
          (image_bound ts before args)
  unfolding bind_all
  Transfers-bind_all [] of func before args tf v = tf
  Transfers-bind_all (a ∷ ts) of func before (head, args) tf (va, vs) =
      Transfers-bind_all ts (bound_object of (object a)) (bind func head)
        (before ++ Transmissible.image (sent a) head) args
        (Transfers-bound of of (object a) (object a) func head before
          (Transmissible.image (sent a) head) tf
          (Transfers-Transmissible (object a) (sent a) head va))
        vs

-- A closure calls the function with what was bound.
pub call_closure-bind_all :
    (p : Program) (e : p.Entry) (args : Tuple p.Val (p.args_of e))
    → call_closure p (e, bind_all p.arg_object (p.args_of e) tt args) ≡ p.body e args
unfolding call_closure
call_closure-bind_all p e args =
    call_all-bind_all p.arg_object (p.args_of e) (λ _ xs. p.body e xs) tt args
