-- ===== src/Cgroups/Removal.antt =====
-- linux/cgroups.rs: killing the processes of a cgroup and removing it. The kernel answers each call,
-- by all the calls before it, which are recorded, the latest first.
pub mod Backoff
use Prim.Native.String.{String}
use sunwalker_box.Common.{
  ℕ, zero, suc, ◌+◌, ◌*◌, ◌^◌, Bool, true, false, ◌&&◌, ◌||◌, Option, none, some, List, [], ◌∷◌,
  ltb, ◌==◌, if◌then◌else◌,
}
use sunwalker_box.Common.Exec.{
  Answer, Failure, nix, io, message, unfinished, Result, ok, err, Exec, pure, fail, lift, skip,
  ◌>>=◌, ◌>>◌, granted,
}
use sunwalker_box.Cgroups.{parse_number}

-- The directory of a cgroup, by the names on the way to it, the innermost first.
abbrev pub Directory : Type 0
Directory = List String

pub data CgroupCall : Type 0 where
  open_file : Directory → String → CgroupCall
  write_file : Directory → String → String → CgroupCall
  read_lines : Directory → String → CgroupCall
  list_dir : Directory → CgroupCall
  sub_dir : Directory → CgroupCall
  rmdir : Directory → CgroupCall
  sleep_ms : ℕ → CgroupCall
  kill_process : ℕ → CgroupCall
  -- The calls that set a cgroup up: a text is a list of bytes.
  create_dir create_dir_all open_dir duplicate_dir chown_dir : Directory → CgroupCall
  chown_file : Directory → String → CgroupCall
  write_text : Directory → String → List ℕ → CgroupCall
  read_text : Directory → String → CgroupCall

abbrev pub CgroupHistory : Type 0
CgroupHistory = List CgroupCall

-- What the kernel answers. A failure is an errno.
pub record CgroupFs : Type 0 where
  pub open_reply : CgroupHistory → Directory → String → Option ℕ
  pub write_reply : CgroupHistory → Directory → String → Option ℕ
  pub lines_reply : CgroupHistory → Directory → String → Result (List (List ℕ))
  -- The entries, each with whether it is a directory.
  pub list_reply : CgroupHistory → Directory → Result (List (String × Bool))
  pub sub_dir_reply : CgroupHistory → Directory → Option ℕ
  pub rmdir_reply : CgroupHistory → Directory → Option ℕ
  pub kill_reply : CgroupHistory → ℕ → Option ℕ
  pub setup_reply : CgroupHistory → CgroupCall → Option ℕ
  pub text_reply : CgroupHistory → Directory → String → Answer (List ℕ)

abbrev pub Cg : Type 0 → Type 0
Cg A = Exec CgroupHistory A

unfoldable pub ask : {A : Type 0} → CgroupCall → (CgroupHistory → A) → Cg A
ask c reply h = (ok (reply h), c ∷ h)

abbrev pub enoent : ℕ
enoent = 2

abbrev pub ebusy : ℕ
ebusy = 16

-- `ErrorKind::NotFound` or `PermissionDenied`.
abbrev pub may_be_absent : ℕ → Bool
may_be_absent e = e == enoent || (e == 1 || e == 13)

abbrev pub succeed_nix : Option ℕ → Cg (Unit {0})
succeed_nix none = skip
succeed_nix (some e) = fail (nix e)

abbrev bounded : Option ℕ → Option ℕ
bounded none = none
bounded (some n) = if ltb n (2 ^ 31) then some n else none

module _ (fs : CgroupFs) where
  abbrev pub open_at : Directory → String → Cg (Option ℕ)
  open_at dir name = ask (open_file dir name) (λ h. fs.open_reply h dir name)

  abbrev write_at : Directory → String → String → Cg (Unit {0})
  write_at dir name text = do
    failure ← ask (write_file dir name text) (λ h. fs.write_reply h dir name)
    granted failure

  -- The loop over the lines of `cgroup.procs`.
  unfoldable pub kill_line : Option ℕ → Cg (Unit {0})
  unfolding ask
  kill_line none = fail (message "Invalid cgroup.procs format")
  kill_line (some pid) =
      if pid == 0
      then fail (message "Found process from another pid namespace in cgroup.procs")
      else (do failure ← ask (kill_process pid) (λ h. fs.kill_reply h pid); succeed_nix failure)

  -- A `pid_t` has 31 bits; the kernel writes no sign.
  abbrev parse_pid : List ℕ → Option ℕ
  parse_pid line = bounded (parse_number line)

  unfoldable pub kill_lines : List (List ℕ) → Cg (Unit {0})
  unfolding kill_line parse_number
  kill_lines [] = skip
  kill_lines (line ∷ lines) = do kill_line (parse_pid line); kill_lines lines

  -- Where `cgroup.kill` is missing the cgroup is frozen and its processes are killed one by one.
  unfoldable pub kill_frozen : Directory → Cg (Unit {0})
  unfolding ask kill_lines
  kill_frozen dir = do
    failure ← open_at dir "cgroup.freeze"
    granted failure
    write_at dir "cgroup.freeze" "1\n"
    failure' ← open_at dir "cgroup.procs"
    granted failure'
    lines ← ask (read_lines dir "cgroup.procs") (λ h. fs.lines_reply h dir "cgroup.procs")
    lines' ← lift lines
    kill_lines lines'

  unfoldable pub kill_opened : Directory → Option ℕ → Cg (Unit {0})
  unfolding ask kill_frozen
  kill_opened dir none = write_at dir "cgroup.kill" "1\n"
  kill_opened dir (some e) = if may_be_absent e then kill_frozen dir else fail (io e)

  unfoldable pub kill_cgroup : Directory → Cg (Unit {0})
  unfolding ask kill_opened
  kill_cgroup dir = do failure ← open_at dir "cgroup.kill"; kill_opened dir failure

  -- A round of the loop around `unlinkat`, on its answer.
  unfoldable pub rmdir_again : (ℕ → ℕ → Cg (Unit {0})) → ℕ → ℕ → Option ℕ → Cg (Unit {0})
  unfolding ask
  rmdir_again retry backoff times none = skip
  rmdir_again retry backoff times (some e) =
      if e == enoent
      then skip
      else if e == ebusy && ltb times 5
      then (do ask (sleep_ms backoff) (λ h. tt); retry (backoff * 2) (times + 1))
      else fail (nix e)

  unfoldable pub rmdir_loop : ℕ → Directory → ℕ → ℕ → Cg (Unit {0})
  unfolding ask rmdir_again
  rmdir_loop zero dir backoff times = fail unfinished
  rmdir_loop (suc fuel) dir backoff times = do
    failure ← ask (rmdir dir) (λ h. fs.rmdir_reply h dir)
    rmdir_again (rmdir_loop fuel dir) backoff times failure

  -- Five retries are allowed, so six rounds are enough.
  unfoldable pub remove_empty : Directory → Cg (Unit {0})
  unfolding rmdir_loop
  remove_empty dir = rmdir_loop 6 dir 50 0

  unfoldable pub remove_children :
      (Directory → Cg (Unit {0})) → Directory → List (String × Bool) → Cg (Unit {0})
  remove_children remove dir [] = skip
  remove_children remove dir ((name, is_dir) ∷ entries) = do
    (if is_dir then remove (name ∷ dir) else skip)
    remove_children remove dir entries

  unfoldable pub remove_opened : (Directory → Cg (Unit {0})) → Directory → Option ℕ → Cg (Unit {0})
  unfolding ask remove_children remove_empty
  remove_opened remove dir (some e) = if e == enoent then skip else fail (io e)
  remove_opened remove dir none = do
    entries ← ask (list_dir dir) (λ h. fs.list_reply h dir)
    entries' ← lift entries
    remove_children remove dir entries'
    remove_empty dir

  -- A tree that is deeper than the fuel is not finished.
  unfoldable pub remove_cgroup : ℕ → Directory → Cg (Unit {0})
  unfolding ask kill_cgroup remove_opened
  remove_cgroup zero dir = fail unfinished
  remove_cgroup (suc depth) dir = do
    kill_cgroup dir
    failure ← ask (sub_dir dir) (λ h. fs.sub_dir_reply h dir)
    remove_opened (remove_cgroup depth) dir failure
