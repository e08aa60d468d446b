-- ===== src/Entry/Serve.antt =====
-- linux/entry.rs: the loop over the lines of the standard input, and what is printed for each. The
-- lower case of a text is a parameter, since it depends on the tables of Unicode; the standard output
-- can be written to.
pub mod Lines
pub mod Answers
use Prim.Native.String.{String}
use Prim.Native.Char.{code}
use sunwalker_box.Common.{
  ℕ, Bool, true, false, Option, none, some, List, [], ◌∷◌, ◌==◌, if◌then◌else◌,
}
use sunwalker_box.Common.Exec.{
  Failure, panic, Result, ok, err, Answer, answer, errno, answered, Exec, fail, lift, skip, ◌>>=◌,
  ◌>>◌,
}
use sunwalker_box.Rootfs.{eq_bytes}
use sunwalker_box.Rootfs.Reset.{DiskQuotas}
use sunwalker_box.Controller.Machine.{
  ControllerHistory, ControllerHost, Controller, World, Control, new_controller, try_new, join_core,
  enter_root, start, stand_by,
}
use sunwalker_box.Entry.Commands.{
  Json, FileHost, Output, CommandName, mkdir_command, ls_command, cat_command, mkfile_command,
  mksymlink_command, bind_command, reset_command, run_command, unknown_command, handle_command,
}

-- A line of the standard output.
pub data Printed : Type 0 where
  ok_line : Output → Printed
  error_line : Failure → Printed

-- What was printed, the latest first.
pub record Session : Type 0 where
  pub world : World
  pub printed : List Printed

abbrev pub Serving : Type 0 → Type 0
Serving A = Exec Session A

abbrev codes : String → List ℕ
codes String.[] = []
codes (String.◌∷◌ c s) = code c ∷ codes s

-- `line.split_once(' ').unwrap_or((&line, ""))`.
unfoldable pub split_once : List ℕ → List ℕ × List ℕ
split_once [] = ([], [])
split_once (c ∷ cs) = let rest = split_once cs in if c == 32 then ([], cs) else (c ∷ rest.0, rest.1)

unfoldable pub command_name : List ℕ → CommandName
unfolding eq_bytes
command_name name =
    if eq_bytes name (codes "mkdir")
    then mkdir_command
    else if eq_bytes name (codes "ls")
    then ls_command
    else if eq_bytes name (codes "cat")
    then cat_command
    else if eq_bytes name (codes "mkfile")
    then mkfile_command
    else if eq_bytes name (codes "mksymlink")
    then mksymlink_command
    else if eq_bytes name (codes "bind")
    then bind_command
    else if eq_bytes name (codes "reset")
    then reset_command
    else if eq_bytes name (codes "run")
    then run_command
    else unknown_command

-- A failure is printed, a panic is not.
unfoldable pub print_result : Result Output → Serving (Unit {0})
print_result (ok output) s = (ok tt, record s { printed = ok_line output ∷ s.printed })
print_result (err panic) s = (err panic, s)
print_result (err e) s = (ok tt, record s { printed = error_line e ∷ s.printed })

-- An action of the controller, of which the result is kept. The panic of the thread that watches the
-- child ends the process.
unfoldable pub attempt_control : {A : Type 0} → Control A → Serving (Result A)
attempt_control m s =
    let (r, w) = m s.world in (if w.aborted then err panic else ok r, record s { world = w })

unfoldable pub control : {A : Type 0} → Control A → Serving A
control m s = let (r, w) = m s.world in (if w.aborted then err panic else r, record s { world = w })

module _ (json : Json) (host : ControllerHost) (files : FileHost)
    (to_lowercase : List ℕ → List ℕ) where
  unfoldable pub serve_line : List ℕ → Serving (Unit {0})
  unfolding split_once command_name attempt_control handle_command print_result
  serve_line line = do
    result ← attempt_control (
        handle_command json host files (command_name (to_lowercase (split_once line).0))
          (split_once line).1)
    print_result result

  -- The lines that are read, until the input ends or cannot be read.
  unfoldable pub serve : List (Answer (List ℕ)) → Serving (Unit {0})
  unfolding serve_line control stand_by
  serve [] = skip
  serve (line ∷ lines) = do
    control (stand_by host)
    line' ← lift (answered line)
    serve_line line'
    serve lines

  -- The core, the root, and the input; the controller has the quotas.
  unfoldable pub run_box : ℕ → List ℕ → List (Answer (List ℕ)) → Serving (Unit {0})
  unfolding control try_new join_core enter_root start serve
  run_box core root lines = do
    control (try_new host)
    control (join_core host core)
    control (enter_root host root)
    control (start host)
    serve lines

-- A process that has done nothing yet.
abbrev pub fresh : DiskQuotas → Session
fresh quotas = record {
  world = record { controller = new_controller quotas; history = []; aborted = false };
  printed = [];
}
