-- ===== src/Entry/Commands/Handled.antt =====
-- No command of linux/entry.rs panics.
use sunwalker_box.Common.{ℕ, ◌≡◌, List}
use sunwalker_box.Common.Exec.{ok}
use sunwalker_box.Common.Exec.Safe.{
  Safe, Gives, Gives-pure, Gives-lift, Gives-bind, Safe-bind_given, NotPanic-answered, Safe-pure,
  Safe-message, Safe-lift, Safe-skip, Safe-bind,
}
use sunwalker_box.Rootfs.Reset.Total.{resolve_abs_box_root-NotPanic}
use sunwalker_box.Rootfs.{newroot, resolve_abs_box_root}
use sunwalker_box.Controller.{ensure_allowed_to_modify}
use sunwalker_box.Controller.Machine.{ControllerHistory, ControllerHost, World}
use sunwalker_box.Controller.Machine.Calls.{
  Below, Changeable, resolve_abs_box_root-Below, ensured-Changeable,
}
use sunwalker_box.Controller.Machine.Wired.{
  IsWired, Extends, request-Safe, perform-Safe, resolving-Gives, run_manager_command-Safe,
  bind-Safe, reset-Safe,
}
use sunwalker_box.Entry.Commands.{
  Json, FileType, is_dir, is_file, is_symlink, is_block_device, is_char_device, is_fifo, is_socket,
  other_type, FileHost, CommandName, mkdir_command, ls_command, cat_command, mkfile_command,
  mksymlink_command, bind_command, reset_command, run_command, unknown_command, resolve_path,
  changeable_path, mkdir, ls, regular, cat_file, mkfile, mksymlink, bind_paths, run_program,
  handle_command,
}
use sunwalker_box.Entry.Commands.Total.{
  cat-NotPanic, ensure-NotPanic, req, list_entries-Safe, IsLawful, parse-Safe, string-Safe,
  content-Safe, cat_arguments-Safe, options-Safe,
}

regular-Safe : {P : World → Type 0} (t : FileType) → Safe P (regular t)
regular-Safe is_dir = Safe-message _
regular-Safe is_file = Safe-skip
regular-Safe is_symlink = Safe-message _
regular-Safe is_block_device = Safe-message _
regular-Safe is_char_device = Safe-message _
regular-Safe is_fifo = Safe-message _
regular-Safe is_socket = Safe-message _
regular-Safe other_type = Safe-message _

-- An invariant that calls on confined paths keep, and under which the reaper can be signalled.
module _ {P : World → Type 0} {host : ControllerHost} (extend : Extends host P)
    (wired : (w : World) → P w → IsWired w) where
  resolve_path-Gives : (path : List ℕ) → Gives P (Below newroot) (resolve_path host path)
  unfolding resolve_path
  resolve_path-Gives path =
      resolving-Gives extend _ _ (λ h. resolve_abs_box_root-NotPanic (host.read_link h) path)
        (λ h. resolve_abs_box_root-Below (host.read_link h) path)

  changeable_path-Gives : (path : List ℕ) → Gives P Changeable (changeable_path host path)
  unfolding changeable_path resolve_path
  changeable_path-Gives path =
      Gives-bind
        {Q = λ path'.
          (h : ControllerHistory) × (resolve_abs_box_root (host.read_link h) path ≡ ok path')}
        _ _
        (resolving-Gives extend _ _ (λ h. resolve_abs_box_root-NotPanic (host.read_link h) path)
          (λ h path' e. (h, e)))
        λ path' (h, e).
          Gives-bind {Q = λ u. ensure_allowed_to_modify path' ≡ ok tt} _ _
            (Gives-lift _ (ensure-NotPanic path') (λ u allowed. allowed))
            λ u allowed.
              Gives-pure path' (ensured-Changeable (host.read_link h) path path' e allowed)

  module _ (json : Json) (lawful : IsLawful json) (files : FileHost) where
    mkdir-Safe : (arg : List ℕ) → Safe P (mkdir json host files arg)
    unfolding mkdir
    mkdir-Safe arg = Safe-bind _ _ (parse-Safe json arg) λ v.
        Safe-bind _ _ (string-Safe json _ v) λ path.
          Safe-bind_given _ _ (changeable_path-Gives path)
            λ path' changeable. Safe-bind _ _ (perform-Safe extend _ changeable) (λ _. Safe-pure _)

    ls-Safe : (arg : List ℕ) → Safe P (ls json host files arg)
    unfolding ls
    ls-Safe arg = Safe-bind _ _ (parse-Safe json arg) λ v.
        Safe-bind _ _ (string-Safe json _ v) λ path.
          Safe-bind_given _ _ (resolve_path-Gives path) λ path' below.
            Safe-bind _ _ (request-Safe extend _ _ below (λ h. NotPanic-answered _))
              λ found. Safe-bind _ _ (list_entries-Safe found) (λ _. Safe-pure _)

    cat_file-Safe : (arg : List ℕ) → Safe P (cat_file json host files arg)
    unfolding cat_file
    cat_file-Safe arg = Safe-bind _ _ (parse-Safe json arg) λ v.
        Safe-bind _ _ (cat_arguments-Safe json lawful v) λ arguments.
          Safe-bind_given _ _ (resolve_path-Gives arguments.0) λ path' below.
            Safe-bind _ _ (request-Safe extend _ _ below (λ h. NotPanic-answered _)) λ file.
              Safe-bind _ _ (Safe-lift _ (NotPanic-answered file.metadata)) λ file_type.
                Safe-bind _ _ (regular-Safe file_type) λ _.
                  Safe-bind _ _
                    (Safe-lift _
                      (cat-NotPanic file.n_read file.content file.special arguments.1 arguments.2))
                    (λ _. Safe-pure _)

    mkfile-Safe : (arg : List ℕ) → Safe P (mkfile json host files arg)
    unfolding mkfile
    mkfile-Safe arg = Safe-bind _ _ (parse-Safe json arg) λ v.
        Safe-bind _ _ (string-Safe json _ _) λ path. Safe-bind _ _ (content-Safe json _) λ content.
          Safe-bind_given _ _ (changeable_path-Gives path) λ path' changeable.
            Safe-bind _ _ (perform-Safe extend _ changeable)
              λ _. Safe-bind _ _ (perform-Safe extend _ changeable) (λ _. Safe-pure _)

    mksymlink-Safe : (arg : List ℕ) → Safe P (mksymlink json host files arg)
    unfolding mksymlink
    mksymlink-Safe arg = Safe-bind _ _ (parse-Safe json arg) λ v.
        Safe-bind _ _ (string-Safe json _ _) λ link. Safe-bind _ _ (string-Safe json _ _) λ target.
          Safe-bind_given _ _ (changeable_path-Gives link)
            λ link' changeable. Safe-bind _ _ (perform-Safe extend _ changeable) (λ _. Safe-pure _)

    bind_paths-Safe : (arg : List ℕ) → Safe P (bind_paths json host files arg)
    unfolding bind_paths
    bind_paths-Safe arg = Safe-bind _ _ (parse-Safe json arg) λ v.
        Safe-bind _ _ (string-Safe json _ _) λ external.
          Safe-bind _ _ (string-Safe json _ _) λ internal.
            Safe-bind _ _ (req _ _)
              λ ro. Safe-bind _ _ (bind-Safe extend external internal ro) (λ _. Safe-pure _)

    run_program-Safe : (arg : List ℕ) → Safe P (run_program json host files arg)
    unfolding run_program
    run_program-Safe arg = Safe-bind _ _ (parse-Safe json arg) λ v.
        Safe-bind _ _ (options-Safe json lawful v)
          λ options. Safe-bind _ _ (run_manager_command-Safe extend _) (λ _. Safe-pure _)

    pub handle_command-Safe :
        (name : CommandName) (arg : List ℕ) → Safe P (handle_command json host files name arg)
    unfolding handle_command
    handle_command-Safe mkdir_command arg = mkdir-Safe arg
    handle_command-Safe ls_command arg = ls-Safe arg
    handle_command-Safe cat_command arg = cat_file-Safe arg
    handle_command-Safe mkfile_command arg = mkfile-Safe arg
    handle_command-Safe mksymlink_command arg = mksymlink-Safe arg
    handle_command-Safe bind_command arg = bind_paths-Safe arg
    handle_command-Safe reset_command arg =
        Safe-bind _ _ (reset-Safe extend wired) (λ _. Safe-pure _)
    handle_command-Safe run_command arg = run_program-Safe arg
    handle_command-Safe unknown_command arg = Safe-message _
