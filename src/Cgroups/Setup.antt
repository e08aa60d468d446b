-- ===== src/Cgroups/Setup.antt =====
-- linux/cgroups.rs: making the cgroups of a core and of its boxes, and their limits. The random ids are
-- arguments.
pub mod Limits
use Prim.Native.String.{String, slice}
use Prim.Native.String
use sunwalker_box.Common.{
  ℕ, zero, suc, ◌/◌, ◌%◌, Bool, true, false, Option, none, some, List, [], ◌∷◌, ◌++◌, ltb, ◌==◌,
  if◌then◌else◌,
}
use sunwalker_box.Common.Exec.{
  Failure, nix, io, message, Result, ok, err, Answer, answer, errno, answered, Exec, pure, fail,
  lift, skip, ◌>>=◌, ◌>>◌, granted,
}
use sunwalker_box.Cgroups.{parse_number, is_whitespace}
use sunwalker_box.Cgroups.Numbers.{show_number}
use sunwalker_box.Cgroups.Removal.{
  Directory, CgroupCall, create_dir, create_dir_all, open_dir, duplicate_dir, chown_dir, chown_file,
  write_text, read_text, sub_dir, CgroupHistory, CgroupFs, Cg, ask, enoent, succeed_nix, open_at,
  kill_cgroup, remove_cgroup,
}

-- Decimal digits; a number of 64 bits has twenty at most.
unfoldable pub decimal_onto : ℕ → ℕ → String → String
decimal_onto zero n rest = rest
decimal_onto (suc fuel) n rest =
    let more = decimal_onto fuel (n / 10) (String.◌++◌ (slice "0123456789" (n % 10) 1) rest) in
    if ltb n 10 then String.◌++◌ (slice "0123456789" n 1) rest else more

abbrev pub decimal : ℕ → String
decimal n = decimal_onto 20 n ""

-- The name of the cgroup of a core, below `/sys/fs/cgroup`.
abbrev pub core_dir : ℕ → Directory
core_dir core = String.◌++◌ "sunwalker-box-core-" (decimal core) ∷ []

abbrev pub proc_dir : Directory → String → Directory
proc_dir dir id = String.◌++◌ "proc-" id ∷ dir

abbrev pub box_dir : Directory → String → Directory
box_dir dir box_id = String.◌++◌ "box-" box_id ∷ dir

-- A line with a number.
abbrev pub number_line : ℕ → List ℕ
number_line n = show_number n ++ 10 ∷ []

-- `0\n`, `1\n`, `root\n`, and the controllers.
abbrev pub zero_line : List ℕ
zero_line = 48 ∷ 10 ∷ []

abbrev pub one_line : List ℕ
one_line = 49 ∷ 10 ∷ []

abbrev pub root_line : List ℕ
root_line = 114 ∷ 111 ∷ 111 ∷ 116 ∷ 10 ∷ []

-- `+cpu`, `+cpuset` and `+memory +pids`.
abbrev plus_cpu : List ℕ
plus_cpu = 43 ∷ 99 ∷ 112 ∷ 117 ∷ []

abbrev plus_cpuset : List ℕ
plus_cpuset = 43 ∷ 99 ∷ 112 ∷ 117 ∷ 115 ∷ 101 ∷ 116 ∷ []

abbrev plus_memory_pids : List ℕ
plus_memory_pids = 43 ∷ 109 ∷ 101 ∷ 109 ∷ 111 ∷ 114 ∷ 121 ∷ 32 ∷ 43 ∷ 112 ∷ 105 ∷ 100 ∷ 115 ∷ []

abbrev pub all_controllers : List ℕ
all_controllers = plus_cpu ++ 32 ∷ (plus_cpuset ++ 32 ∷ plus_memory_pids)

abbrev pub box_controllers : List ℕ
box_controllers = plus_cpu ++ 32 ∷ plus_memory_pids

-- The files that the sandboxed root gets.
unfoldable pub chowned_names : List String
chowned_names =
    "cgroup.freeze" ∷ "cgroup.kill" ∷ "cgroup.procs" ∷ "cpu.stat" ∷ "memory.events" ∷ "memory.max"
    ∷ "memory.oom.group" ∷ "memory.peak" ∷ "memory.stat" ∷ "memory.swap.max" ∷ []

-- `str::trim`, of the white space of ASCII.
unfoldable pub trim_start : List ℕ → List ℕ
trim_start [] = []
trim_start (c ∷ cs) = let rest = trim_start cs in if is_whitespace c then rest else c ∷ cs

abbrev pub kept_after : ℕ → List ℕ → List ℕ
kept_after c [] = if is_whitespace c then [] else c ∷ []
kept_after c (k ∷ ks) = c ∷ k ∷ ks

unfoldable pub trim_end : List ℕ → List ℕ
trim_end [] = []
trim_end (c ∷ cs) = kept_after c (trim_end cs)

abbrev pub parsed : Option ℕ → Cg ℕ
parsed none = fail (message "Invalid memory.peak format")
parsed (some n) = pure n

module _ (fs : CgroupFs) where
  -- A call that succeeds, or fails by an `std::io::Error`.
  unfoldable pub set_up : CgroupCall → Cg (Unit {0})
  unfolding ask
  set_up c = do failure ← ask c (λ h. fs.setup_reply h c); granted failure

  -- A file is opened and written to.
  unfoldable pub write_opened : Directory → String → List ℕ → Cg (Unit {0})
  unfolding ask set_up
  write_opened dir name t = do
    failure ← open_at fs dir name
    granted failure
    set_up (write_text dir name t)

  -- A file that is not there is no error.
  abbrev pub after_chown : Option ℕ → Cg (Unit {0})
  after_chown none = skip
  after_chown (some e) = if e == enoent then skip else fail (nix e)

  unfoldable pub chown_files : Directory → List String → Cg (Unit {0})
  unfolding ask
  chown_files dir [] = skip
  chown_files dir (name ∷ names) = do
    failure ← ask (chown_file dir name) (λ h. fs.setup_reply h (chown_file dir name))
    after_chown failure
    chown_files dir names

  unfoldable pub chown_cgroup : Directory → Cg (Unit {0})
  unfolding ask chown_files chowned_names
  chown_cgroup dir = do
    failure ← ask (chown_dir dir) (λ h. fs.setup_reply h (chown_dir dir))
    succeed_nix failure
    chown_files dir chowned_names

  unfoldable pub open_sub_dir : Directory → Cg (Unit {0})
  unfolding ask
  open_sub_dir dir = do failure ← ask (sub_dir dir) (λ h. fs.sub_dir_reply h dir); granted failure

  -- `Cgroup::new`.
  unfoldable pub new_cgroup : ℕ → Cg Directory
  unfolding set_up write_opened chown_cgroup open_sub_dir
  new_cgroup core = do
    write_opened [] "cgroup.subtree_control" all_controllers
    set_up (create_dir_all (core_dir core))
    write_opened (core_dir core) "cgroup.subtree_control" box_controllers
    set_up (open_dir (core_dir core))
    chown_cgroup (core_dir core)
    write_opened (core_dir core) "cpuset.cpus" (number_line core)
    write_opened (core_dir core) "cpuset.cpus.partition" root_line
    set_up (create_dir_all ("manager" ∷ core_dir core))
    open_sub_dir ("manager" ∷ core_dir core)
    chown_cgroup ("manager" ∷ core_dir core)
    pure (core_dir core)

  unfoldable pub add_self_as_manager : Directory → Cg (Unit {0})
  unfolding write_opened
  add_self_as_manager dir = write_opened ("manager" ∷ dir) "cgroup.procs" zero_line

  unfoldable pub create_proc_cgroup : Directory → String → Cg Directory
  unfolding ask set_up write_opened
  create_proc_cgroup dir id = do
    set_up (create_dir (proc_dir dir id))
    write_opened (proc_dir dir id) "cgroup.subtree_control" (box_controllers ++ 10 ∷ [])
    failure ←
        ask (chown_dir (proc_dir dir id)) (λ h. fs.setup_reply h (chown_dir (proc_dir dir id)))
    succeed_nix failure
    set_up (duplicate_dir dir)
    pure (proc_dir dir id)

  unfoldable pub create_box_cgroup : Directory → String → Cg Directory
  unfolding set_up open_sub_dir
  create_box_cgroup dir box_id = do
    set_up (create_dir (box_dir dir box_id))
    open_sub_dir dir
    pure (box_dir dir box_id)

  unfoldable pub add_process : Directory → ℕ → Cg (Unit {0})
  unfolding write_opened
  add_process dir pid = write_opened dir "cgroup.procs" (number_line pid)

  unfoldable pub set_memory_limit : Directory → ℕ → Cg (Unit {0})
  unfolding write_opened
  set_memory_limit dir limit = do
    write_opened dir "memory.max" (number_line limit)
    write_opened dir "memory.swap.max" zero_line
    write_opened dir "memory.oom.group" one_line

  unfoldable pub set_processes_limit : Directory → ℕ → Cg (Unit {0})
  unfolding write_opened
  set_processes_limit dir limit = write_opened dir "pids.max" (number_line limit)

  -- What is read of an opened `memory.peak`.
  abbrev pub read_peak : Directory → Option ℕ → Cg (Option ℕ)
  read_peak dir (some e) = if e == enoent then pure none else fail (io e)
  read_peak dir none = do
    buf ← ask (read_text dir "memory.peak") (λ h. fs.text_reply h dir "memory.peak")
    t ← lift (answered buf)
    peak ← parsed (parse_number (trim_end (trim_start t)))
    pure (some peak)

  unfoldable pub get_memory_peak : Directory → Cg (Option ℕ)
  unfolding ask trim_start trim_end parse_number
  get_memory_peak dir = do failure ← open_at fs dir "memory.peak"; read_peak dir failure

  -- `revert_core_isolation`, with the depth of the tree of cgroups.
  unfoldable pub revert_core_isolation : ℕ → ℕ → Cg (Unit {0})
  unfolding set_up remove_cgroup
  revert_core_isolation depth core = do set_up (open_dir []); remove_cgroup fs depth (core_dir core)
