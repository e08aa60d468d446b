-- ===== src/Witnesses/Spawns.antt =====
-- A process of multiprocessing/src/platform/unix/subprocess.rs and imp.rs for a program of two entries.
use sunwalker_box.Common.{
  ℕ, ◌+◌, ◌%◌, ◌≡◌, refl, Bool, true, false, Option, none, some, List, [], ◌∷◌, ◌<◌, ◌==◌,
  if◌then◌else◌, arith,
}
use sunwalker_box.Common.Exec
use sunwalker_box.Common.Exec.{answer}
use sunwalker_box.Serde.Words.{Word, word, word_object, word_transmissible, to_ne_bytes}
use sunwalker_box.Serde.Text.RoundTrip.{ValidBytes, is_bytes_lem}
use sunwalker_box.Serde.Traits.{Image, word_size}
use sunwalker_box.Serde.Traits.RoundTrip.{IsLoaded}
use sunwalker_box.Running.{exited}
use sunwalker_box.Ipc.{Packet}
use sunwalker_box.Cgroups.Numbers.{show_number}
use sunwalker_box.Spawn.{Program, Tuple, ProcessImage, new_entry}
use sunwalker_box.Spawn.Process.{
  clone, send, SpawnHost, spawn, join, multiprocessing_arg, ChildHistory, ChildCall,
  disable_cloexec,
}
use sunwalker_box.Spawn.Main.{MainHost, enable_cloexec, disable_nonblock, reply, main}
use sunwalker_box.Spawn.Images.{Layout, image_closure, image_entry}
use sunwalker_box.Spawn.Joins.{duplex_calls, join-main-spawn}
use sunwalker_box.Witnesses.Transport.{send_whole, deliver_whole, whole-IsSeqpacket}

-- `true` adds its two arguments, `false` takes none.
abbrev args_of : Bool → List ℕ
args_of true = 4 ∷ 2 ∷ []
args_of false = []

abbrev run : (e : Bool) → Tuple Word (args_of e) → Word 8
run true (a, (b, _)) = word (a.value + b.value)
run false _ = word 0

abbrev adder : Program
adder = record {
  Arg = ℕ;
  Val = Word;
  arg_object = λ w. word_object {w = w};
  Entry = Bool;
  args_of = args_of;
  Output = λ e. Word 8;
  output_object = λ e. word_object;
  body = run;
}

abbrev distance : Bool → ℕ
distance true = 300
distance false = 4000

abbrev type_of : ℕ → ℕ → Option Bool
type_of base address =
    if address == base + 300 then some true else if address == base + 4000 then some false else none

abbrev loaded_at : ℕ → Image Bool
loaded_at base = record {
  base = base;
  vtable_of = λ t. (base + distance t) % word_size;
  type_at = type_of base;
}

distance_fits : (t : Bool) → distance t < word_size
distance_fits true = omega arith
distance_fits false = omega arith

low_types : (t : Bool) → type_of 65536 ((65536 + distance t) % word_size) ≡ some t
low_types true = refl
low_types false = refl

high_types : (t : Bool) → type_of 9000000 ((9000000 + distance t) % word_size) ≡ some t
high_types true = refl
high_types false = refl

low-IsLoaded : IsLoaded distance (loaded_at 65536)
low-IsLoaded = record {
  base_fits = omega arith;
  distance_fits = distance_fits;
  vtable_lem = λ t. refl;
  type_lem = low_types;
}

high-IsLoaded : IsLoaded distance (loaded_at 9000000)
high-IsLoaded = record {
  base_fits = omega arith;
  distance_fits = distance_fits;
  vtable_lem = λ t. refl;
  type_lem = high_types;
}

abbrev image_at : ℕ → ProcessImage adder
image_at base = record { closures = loaded_at base; entries = loaded_at base }

abbrev layout : Layout adder
layout = record { closures = distance; entries = distance }

abbrev arguments : Tuple Word (args_of true)
arguments = (word 70000, (word 513, tt))

abbrev host : SpawnHost
host = record {
  socketpair_reply = λ h. answer (5, 6);
  fcntl_reply = λ h fd. none;
  clone_reply = λ h. answer 4242;
  sendmsg = send_whole;
}

abbrev child_host : MainHost
child_host = record { fcntl_reply = λ h c. none; sendmsg = send_whole; recvmsg = deliver_whole }

abbrev closure_bytes : List ℕ
closure_bytes = image_closure adder layout (λ w. word_transmissible) true arguments

closure-ValidBytes : ValidBytes closure_bytes
unfolding to_ne_bytes
closure-ValidBytes = record { short = omega arith; bytes = is_bytes_lem closure_bytes refl }

abbrev entry_bytes : List ℕ
entry_bytes = image_entry adder layout (λ w. word_transmissible) true arguments

entry-ValidBytes : ValidBytes entry_bytes
unfolding to_ne_bytes
entry-ValidBytes = record { short = omega arith; bytes = is_bytes_lem entry_bytes refl }

join-main-spawn_example :
    (packets out : List Packet) × (spawn host adder
        (image_at 65536)
        (new_entry adder true arguments)
        0
        []
      ≡ (
        Exec.ok (record { proc_pid = 4242; output_rx = 5 }),
        send packets ∷ clone 0 6 [] ∷ duplex_calls 5 6,
      ))
    × (main child_host adder
          (image_at 9000000)
          none
          (multiprocessing_arg ∷ show_number 6 ∷ [])
          (record { calls = []; queue = packets })
        ≡ (
          Exec.ok 0,
          record {
            calls = reply out ∷ disable_nonblock 6 ∷ disable_nonblock 6 ∷ enable_cloexec 6 ∷ [];
            queue = [];
          },
        ))
    × (join ⦃o = word_object {w = 8}⦄ deliver_whole (answer (exited 4242 0)) out
        ≡ Exec.ok (word 70513))
join-main-spawn_example =
    join-main-spawn adder layout (λ w. word_transmissible) (λ e. word_transmissible)
      (image_at 65536) (image_at 9000000)
      (record { closures = low-IsLoaded; entries = low-IsLoaded })
      (record { closures = high-IsLoaded; entries = high-IsLoaded }) send_whole deliver_whole
      whole-IsSeqpacket true arguments (omega arith, (omega arith, tt)) closure-ValidBytes
      entry-ValidBytes (omega arith) host child_host refl refl refl 5 6 4242 0 refl (λ h fd. refl)
      refl (omega arith) (λ h c. refl) none

-- The descriptor 9 cannot be inherited.
abbrev refuses : ChildHistory → ChildCall → Option ℕ
refuses h (disable_cloexec fd) = if fd == 9 then some 9 else none
refuses h c = none
