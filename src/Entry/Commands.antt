-- ===== src/Entry/Commands.antt =====
-- linux/entry.rs: the commands that are read from the standard input. JSON, and floating point numbers
-- as durations, are a parameter. A JSON string is taken out of its value once, so taking is reading.
pub mod Total
pub mod Handled
use Prim.Native.String.{String}
use sunwalker_box.Common.{
  ℕ, ◌-◌, Bool, true, false, ◌&&◌, Option, none, some, List, [], ◌∷◌, ◌++◌, map, ◌==◌,
  if◌then◌else◌,
}
use sunwalker_box.Common.Exec.{
  Failure, io, message, panic, Result, ok, err, Answer, answer, errno, answered, Exec, pure, fail,
  lift, gets, modify, skip, unwrap, ◌>>=◌, ◌>>◌,
}
use sunwalker_box.Running.{Options}
use sunwalker_box.Rootfs.{eq_bytes, resolve_abs_box_root}
use sunwalker_box.Controller.{ensure_allowed_to_modify}
use sunwalker_box.Controller.Machine.{
  ManagerCommand, FileCall, ControllerCall, ControllerHistory, ControllerHost, Controller, World,
  Control, request, required, resolving, perform, run_manager_command, reset, bind, file_call,
}
use sunwalker_box.Entry.{ReadCount, cat}

pub record Json : Type 1 where
  pub Value : Type 0
  pub parse : List ℕ → Option Value
  pub is_string : Value → Bool
  pub is_null : Value → Bool
  pub is_array : Value → Bool
  pub take_string : Value → Option (List ℕ)
  pub as_usize : Value → Option ℕ
  pub as_u8 : Value → Option ℕ
  pub as_bool : Value → Option Bool
  -- `as_f64`, and `Duration::from_secs_f64`, which panics at a number that is no duration.
  pub F64 : Type 0
  pub as_f64 : Value → Option F64
  pub from_secs_f64 : F64 → Option ℕ
  -- What stands under a key, null where there is nothing.
  pub field : Value → String → Value
  pub members : Value → List Value
  pub entries : Value → List (List ℕ × Value)
  pub stringify : List ℕ → List ℕ

pub data FileType : Type 0 where
  is_dir is_file is_symlink is_block_device is_char_device is_fifo is_socket other_type : FileType

pub record Metadata : Type 0 where
  pub file_type : FileType
  pub len : ℕ
  pub mode : ℕ

-- A name that is not UTF-8 is `none`.
pub record DirEntry : Type 0 where
  pub file_name : Option (List ℕ)
  pub metadata : Answer Metadata

pub record OpenedFile : Type 0 where
  pub metadata : Answer FileType
  pub content : List ℕ
  -- What `read_to_end` finds where the length is zero.
  pub special : List ℕ
  pub n_read : ReadCount

pub record FileHost : Type 0 where
  pub read_dir_reply : ControllerHistory → List ℕ → Answer (List (Answer DirEntry))
  pub open_reply : ControllerHistory → List ℕ → Answer OpenedFile

-- A file of a listing, as it is shown.
pub record Listed : Type 0 where
  pub file_name : List ℕ
  pub file_type : String
  pub len : ℕ
  pub mode : ℕ

-- The value of a reply: bytes, a listing, or the text that the manager gave.
pub data Output : Type 0 where
  nothing : Output
  bytes : List ℕ → Output
  listing : List Listed → Output
  manager_reply : Option (List ℕ) → Output

unfoldable pub type_name : FileType → String
type_name is_dir = "dir"
type_name is_file = "file"
type_name is_symlink = "symlink"
type_name is_block_device = "block"
type_name is_char_device = "char"
type_name is_fifo = "fifo"
type_name is_socket = "socket"
type_name other_type = "unknown"

-- `/dev/null`.
abbrev pub dev_null : List ℕ
dev_null = 47 ∷ 100 ∷ 101 ∷ 118 ∷ 47 ∷ 110 ∷ 117 ∷ 108 ∷ 108 ∷ []

pub data CommandName : Type 0 where
  mkdir_command ls_command cat_command mkfile_command mksymlink_command bind_command reset_command
        run_command unknown_command :
      CommandName

unfoldable pub list_entries : List (Answer DirEntry) → Control (List Listed)
unfolding type_name required pure
list_entries [] = pure []
list_entries (entry ∷ entries) = do
  found ← lift (answered entry)
  name ← required "Invalid file name" found.file_name
  metadata ← lift (answered found.metadata)
  rest ← list_entries entries
  pure (
      record {
        file_name = name;
        file_type = type_name metadata.file_type;
        len = metadata.len;
        mode = metadata.mode;
      }
      ∷ rest)

abbrev pub regular : FileType → Control (Unit {0})
regular is_file = skip
regular _ = fail (message "The passed path does not refer to a regular file")

abbrev pub nonempty : {A : Type 0} → List A → Control (Unit {0})
nonempty [] = fail (message "'argv' is empty")
nonempty (_ ∷ _) = skip

module _ (host : ControllerHost) where
  unfoldable pub resolve_path : List ℕ → Control (List ℕ)
  unfolding resolving resolve_abs_box_root
  resolve_path path = resolving (λ h. resolve_abs_box_root (host.read_link h) path)

  -- A path that may be changed.
  unfoldable pub changeable_path : List ℕ → Control (List ℕ)
  unfolding resolve_path ensure_allowed_to_modify
  changeable_path path = do
    path' ← resolve_path path
    lift (ensure_allowed_to_modify path')
    pure path'

module _ (json : Json) where
  open json use {
    Value, parse, is_string, is_null, is_array, take_string, as_usize, as_u8, as_bool, as_f64,
    from_secs_f64, field, members, entries, stringify,
  }

  unfoldable pub parse_argument : List ℕ → Control Value
  unfolding required
  parse_argument arg = required "Invalid JSON" (parse arg)

  unfoldable pub string_argument : String → Value → Control (List ℕ)
  unfolding required
  string_argument text v = required text (take_string v)

  -- The path, `at` and `len` of `cat`.
  unfoldable pub cat_arguments : Value → Control (List ℕ × ℕ × ℕ)
  unfolding required string_argument unwrap
  cat_arguments arg =
      if is_string arg then (do path ← unwrap (take_string arg); pure (path, 0, 0)) else (do
        path ← string_argument "Invalid 'path' argument" (field arg "path")
        at ← required "Invalid 'at' argument" (as_usize (field arg "at"))
        len ← required "Invalid 'len' argument" (as_usize (field arg "len"))
        pure (path, at, len))

  unfoldable pub content_bytes : List Value → Control (List ℕ)
  unfolding required
  content_bytes [] = pure []
  content_bytes (v ∷ vs) = do
    byte ← required "Invalid 'content' argument" (as_u8 v)
    rest ← content_bytes vs
    pure (byte ∷ rest)

  unfoldable pub content_argument : Value → Control (List ℕ)
  unfolding content_bytes
  content_argument v =
      if is_array v then content_bytes (members v) else fail (message "Invalid 'content' argument")

  unfoldable pub strings : String → List Value → Control (List (List ℕ))
  unfolding string_argument
  strings text [] = pure []
  strings text (v ∷ vs) = do s ← string_argument text v; rest ← strings text vs; pure (s ∷ rest)

  unfoldable pub argv_argument : Value → Control (List (List ℕ))
  unfolding strings
  argv_argument v =
      if is_array v
      then (do argv ← strings "Invalid 'argv' argument" (members v); nonempty argv; pure argv)
      else fail (message "Invalid 'argv' argument")

  unfoldable pub stream_argument : String → Value → Control (List ℕ)
  unfolding string_argument
  stream_argument text v = if is_null v then pure dev_null else string_argument text v

  unfoldable pub time_argument : String → Value → Control (Option ℕ)
  unfolding required unwrap
  time_argument text v =
      if is_null v
      then pure none
      else (do f ← required text (as_f64 v); t ← unwrap (from_secs_f64 f); pure (some t))

  unfoldable pub count_argument : String → Value → Control (Option ℕ)
  unfolding required
  count_argument text v =
      if is_null v then pure none else (do n ← required text (as_usize v); pure (some n))

  unfoldable pub env_entries : List (List ℕ × Value) → Control (List (List ℕ × List ℕ))
  unfolding string_argument
  env_entries [] = pure []
  env_entries ((key, v) ∷ vs) = do
    s ← string_argument "Invalid 'env' argument" v
    rest ← env_entries vs
    pure ((key, s) ∷ rest)

  unfoldable pub env_argument : Value → Control (Option (List (List ℕ × List ℕ)))
  unfolding env_entries
  env_argument v =
      if is_null v then pure none else (do env ← env_entries (entries v); pure (some env))

  unfoldable pub run_options : Value → Control Options
  unfolding argv_argument stream_argument time_argument count_argument env_argument
  run_options arg = do
    argv ← argv_argument (field arg "argv")
    stdin ← stream_argument "Invalid 'stdin' argument" (field arg "stdin")
    stdout ← stream_argument "Invalid 'stdout' argument" (field arg "stdout")
    stderr ← stream_argument "Invalid 'stderr' argument" (field arg "stderr")
    real ← time_argument "Invalid 'real_time_limit' argument" (field arg "real_time_limit")
    cpu ← time_argument "Invalid 'cpu_time_limit' argument" (field arg "cpu_time_limit")
    idleness ←
        time_argument "Invalid 'idleness_time_limit' argument" (field arg "idleness_time_limit")
    memory ← count_argument "Invalid 'memory_limit' argument" (field arg "memory_limit")
    processes ← count_argument "Invalid 'processes_limit' argument" (field arg "processes_limit")
    env ← env_argument (field arg "env")
    pure (record {
      argv = argv;
      stdin = stdin;
      stdout = stdout;
      stderr = stderr;
      real_time_limit = real;
      cpu_time_limit = cpu;
      idleness_time_limit = idleness;
      memory_limit = memory;
      processes_limit = processes;
      env = env;
    })

  module _ (host : ControllerHost) (files : FileHost) where
    unfoldable pub mkdir : List ℕ → Control Output
    unfolding parse_argument string_argument changeable_path perform
    mkdir arg = do
      v ← parse_argument arg
      path ← string_argument "Invalid command argument" v
      path' ← changeable_path host path
      perform host (file_call (FileCall.create_dir path'))
      pure nothing

    unfoldable pub ls : List ℕ → Control Output
    unfolding parse_argument string_argument resolve_path request list_entries
    ls arg = do
      v ← parse_argument arg
      path ← string_argument "Invalid command argument" v
      path' ← resolve_path host path
      found ←
          request host (file_call (FileCall.read_dir path'))
            (λ h. answered (files.read_dir_reply h path'))
      shown ← list_entries found
      pure (listing shown)

    unfoldable pub cat_file : List ℕ → Control Output
    unfolding parse_argument cat_arguments resolve_path request cat
    cat_file arg = do
      v ← parse_argument arg
      arguments ← cat_arguments v
      path' ← resolve_path host arguments.0
      file ←
          request host (file_call (FileCall.open_file path'))
            (λ h. answered (files.open_reply h path'))
      file_type ← lift (answered file.metadata)
      regular file_type
      buf ← lift (cat file.n_read file.content file.special arguments.1 arguments.2)
      pure (bytes (stringify buf))

    unfoldable pub mkfile : List ℕ → Control Output
    unfolding parse_argument string_argument content_argument changeable_path perform
    mkfile arg = do
      v ← parse_argument arg
      path ← string_argument "Invalid 'path' argument" (field v "path")
      content ← content_argument (field v "content")
      path' ← changeable_path host path
      perform host (file_call (FileCall.create_file path'))
      perform host (file_call (FileCall.write_all path' content))
      pure nothing

    unfoldable pub mksymlink : List ℕ → Control Output
    unfolding parse_argument string_argument changeable_path perform
    mksymlink arg = do
      v ← parse_argument arg
      link ← string_argument "Invalid 'link' argument" (field v "link")
      target ← string_argument "Invalid 'target' argument" (field v "target")
      link' ← changeable_path host link
      perform host (file_call (FileCall.make_symlink target link'))
      pure nothing

    unfoldable pub bind_paths : List ℕ → Control Output
    unfolding parse_argument string_argument required bind
    bind_paths arg = do
      v ← parse_argument arg
      external ← string_argument "Invalid 'external' argument" (field v "external")
      internal ← string_argument "Invalid 'internal' argument" (field v "internal")
      ro ← required "Invalid 'ro' argument" (as_bool (field v "ro"))
      bind host external internal ro
      pure nothing

    unfoldable pub run_program : List ℕ → Control Output
    unfolding parse_argument run_options run_manager_command
    run_program arg = do
      v ← parse_argument arg
      options ← run_options v
      reply ← run_manager_command host (ManagerCommand.run options)
      pure (manager_reply reply)

    unfoldable pub handle_command : CommandName → List ℕ → Control Output
    unfolding mkdir ls cat_file mkfile mksymlink bind_paths reset run_program
    handle_command mkdir_command arg = mkdir arg
    handle_command ls_command arg = ls arg
    handle_command cat_command arg = cat_file arg
    handle_command mkfile_command arg = mkfile arg
    handle_command mksymlink_command arg = mksymlink arg
    handle_command bind_command arg = bind_paths arg
    handle_command reset_command arg = do reset host; pure nothing
    handle_command run_command arg = run_program arg
    handle_command unknown_command arg = fail (message "Unknown command")
