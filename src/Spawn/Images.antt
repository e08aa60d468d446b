-- ===== src/Spawn/Images.antt =====
-- What is written of an entry (multiprocessing-derive/src/lib.rs) and of the closure in it
-- (multiprocessing/src/fns.rs), by a process for another with the program elsewhere in its memory.
use sunwalker_box.Common.{ℕ, List, [], ◌++◌}
use sunwalker_box.Serde.Words.{word_object, word_transmissible, to_ne_bytes}
use sunwalker_box.Serde.Builtins.{pair_object, unit_object}
use sunwalker_box.Serde.Builtins.RoundTrip.{pair_transmissible}
use sunwalker_box.Serde.Sequences.{vec_object}
use sunwalker_box.Serde.Sequences.RoundTrip.{vec_transmissible}
use sunwalker_box.Serde.Text.RoundTrip.{ValidBytes}
use sunwalker_box.Serde.Delayed.{serialized}
use sunwalker_box.Serde.Delayed.RoundTrip.{image_delayed, Transfers-delayed}
use sunwalker_box.Serde.Transfers.{Transfers, Transfers-unit}
use sunwalker_box.Serde.Traits.RoundTrip.{IsLoaded, Transfers-box}
use sunwalker_box.Spawn.{
  Tuple, Program, ProcessImage, BoxedClosure, boxed_closure_object, entry_point_object,
  entry_object, closure_object, new_entry, bind_all,
}
use sunwalker_box.Spawn.Closures.{ArgsTransmissible, ValidArgs, image_bound, Transfers-bind_all}

-- Where the program has the vtables of its closures and its entries.
pub record Layout (p : Program) : Type 0 where
  pub closures : p.Entry → ℕ
  pub entries : p.Entry → ℕ

pub record IsRunning (p : Program) (layout : Layout p) (image : ProcessImage p) : Type 0 where
  pub closures : IsLoaded layout.closures image.closures
  pub entries : IsLoaded layout.entries image.entries

module _ (p : Program) (layout : Layout p) (sent : ArgsTransmissible p) (e : p.Entry)
    (args : Tuple p.Val (p.args_of e)) where
  abbrev pub image_closure : List ℕ
  image_closure =
      to_ne_bytes 8 (layout.closures e) ++ image_bound p.arg_object sent (p.args_of e) [] args

  abbrev pub image_entry : List ℕ
  image_entry = to_ne_bytes 8 (layout.entries e) ++ image_delayed image_closure

  abbrev pub closure_of : BoxedClosure p
  closure_of = (e, bind_all p.arg_object (p.args_of e) tt args)

  module _ (ours theirs : ProcessImage p) (run : IsRunning p layout ours)
      (run' : IsRunning p layout theirs) (valid : ValidArgs p.arg_object sent (p.args_of e) args)
      (short : ValidBytes image_closure) where
    pub Transfers-closure :
        Transfers
          (boxed_closure_object p ours)
          (boxed_closure_object p theirs)
          closure_of
          closure_of
          image_closure
    Transfers-closure =
        let bound = bind_all p.arg_object (p.args_of e) tt args in
        Transfers-box layout.closures ours.closures theirs.closures run.closures run'.closures
          (closure_object p) (closure_object p) e bound bound
          (image_bound p.arg_object sent (p.args_of e) [] args)
          (Transfers-bind_all p.arg_object sent (p.args_of e) unit_object tt [] args Transfers-unit
            valid)

    pub Transfers-entry :
        Transfers
          (entry_object p ours)
          (entry_object p theirs)
          (new_entry p e args)
          (e, serialized image_closure [])
          image_entry
    unfolding new_entry
    Transfers-entry =
        Transfers-box layout.entries ours.entries theirs.entries run.entries run'.entries
          (entry_point_object p ours) (entry_point_object p theirs) e _ _
          (image_delayed image_closure)
          (Transfers-delayed (boxed_closure_object p ours) (boxed_closure_object p theirs)
            closure_of closure_of image_closure Transfers-closure short)
