-- ===== src/Procs.antt =====
-- linux/procs.rs: the pid namespace, and mounting `/proc` of the box and hiding what tells of the
-- host. The kernel answers each call, by all the calls before it, which are recorded, the latest
-- first.
pub mod Hidden
use Prim.Native.String.{String}
use sunwalker_box.Common.{
  ℕ, Bool, true, false, Option, none, some, List, [], ◌∷◌, ◌==◌, if◌then◌else◌,
}
use sunwalker_box.Common.Exec.{
  Failure, nix, io, message, panic, unfinished, Result, ok, err, Exec, pure, fail, lift, skip,
  ◌>>=◌, ◌>>◌, granted,
}

-- The path that a name has below `proc_path`.
pub record Target : Type 0 where
  pub proc_path : String
  pub name : String

abbrev pub join : String → String → Target
join proc_path name = record { proc_path = proc_path; name = name }

pub data Source : Type 0 where
  emptydir emptyfile : Source

pub data ProcCall : Type 0 where
  mount_proc : String → ProcCall
  metadata : Target → ProcCall
  bind_mount : Source → Target → ProcCall
  -- MS_REMOUNT and MS_RDONLY.
  bind_readonly : Target → ProcCall
  unshare : ℕ → ProcCall
  -- `1` to `/proc/sys/kernel/ns_last_pid`.
  write_last_pid : ProcCall

abbrev pub ProcHistory : Type 0
ProcHistory = List ProcCall

pub record ProcHost : Type 0 where
  -- Whether the target is a directory.
  pub metadata_reply : ProcHistory → Target → Result Bool
  pub call_reply : ProcHistory → ProcCall → Option ℕ

abbrev pub Proc : Type 0 → Type 0
Proc A = Exec ProcHistory A

unfoldable pub hidden_names : List String
hidden_names =
    "acpi" ∷ "asound" ∷ "buddyinfo" ∷ "bus" ∷ "cgroups" ∷ "cmdline" ∷ "consoles" ∷ "devices"
    ∷ "diskstats" ∷ "dma" ∷ "driver" ∷ "fb" ∷ "fs" ∷ "interrupts" ∷ "iomem" ∷ "ioports" ∷ "irq"
    ∷ "kallsyms" ∷ "kcore" ∷ "key-users" ∷ "keys" ∷ "kmsg" ∷ "loadavg" ∷ "mdstat" ∷ "meminfo"
    ∷ "misc" ∷ "modules" ∷ "mtd" ∷ "partitions" ∷ "pressure" ∷ "sched_debug" ∷ "schedstat" ∷ "scsi"
    ∷ "softirqs" ∷ "stat" ∷ "swaps" ∷ "sys/dev" ∷ "uptime" ∷ "vmstat" ∷ "zoneinfo" ∷ []

abbrev pub source_of : Bool → Source
source_of is_dir = if is_dir then emptydir else emptyfile

abbrev pub clone_newpid : ℕ
clone_newpid = 536870912

-- `ErrorKind::NotFound`.
abbrev pub is_not_found : Failure → Bool
is_not_found (io e) = e == 2
is_not_found _ = false

module _ (host : ProcHost) where
  unfoldable pub proc_call : ProcCall → Proc (Unit {0})
  proc_call c h = granted (host.call_reply h c) (c ∷ h)

  unfoldable pub ask_metadata : Target → Proc (Result Bool)
  ask_metadata target h = (ok (host.metadata_reply h target), metadata target ∷ h)

  -- What is not there has nothing to hide.
  unfoldable pub hide_found : Target → Result Bool → Proc (Unit {0})
  unfolding proc_call
  hide_found target (ok is_dir) = do
    proc_call (bind_mount (source_of is_dir) target)
    proc_call (bind_readonly target)
  hide_found target (err e) = if is_not_found e then skip else fail e

  -- The body of the loop of `mount_procfs`.
  unfoldable pub hide_name : Target → Proc (Unit {0})
  unfolding ask_metadata hide_found
  hide_name target = do found ← ask_metadata target; hide_found target found

  unfoldable pub hide_names : String → List String → Proc (Unit {0})
  unfolding hide_name
  hide_names proc_path [] = skip
  hide_names proc_path (name ∷ names) = do
    hide_name (join proc_path name)
    hide_names proc_path names

  unfoldable pub mount_procfs : String → Proc (Unit {0})
  unfolding proc_call hide_names hidden_names
  mount_procfs proc_path = do proc_call (mount_proc proc_path); hide_names proc_path hidden_names

  unfoldable pub unshare_pidns : Proc (Unit {0})
  unfolding proc_call
  unshare_pidns = proc_call (unshare clone_newpid)

  -- The next process has the pid 2.
  unfoldable pub reset_pidns : Proc (Unit {0})
  unfolding proc_call
  reset_pidns = proc_call write_last_pid
