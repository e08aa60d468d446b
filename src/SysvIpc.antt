-- ===== src/SysvIpc.antt =====
-- linux/ipc.rs: emptying the IPC namespace of the box between two runs. The kernel answers each call,
-- by all the calls before it, which are recorded, the latest first.
pub mod Removed
pub mod NextId
use Prim.Native.String.{String}
use sunwalker_box.Common.{
  ℕ, zero, suc, ◌^◌, Bool, true, false, Option, none, some, List, [], ◌∷◌, ltb, if◌then◌else◌,
}
use sunwalker_box.Common.Exec.{
  Result, ok, err, io, message, Exec, pure, fail, lift, skip, and_then, ◌>>=◌, ◌>>◌, granted,
}
use sunwalker_box.Tracing.{IpcKind, sem, msg, shm}
use sunwalker_box.Cgroups.{parse_line}

pub data IpcCall : Type 0 where
  list_queues : IpcCall
  remove_queue : String → IpcCall
  list_objects : IpcKind → IpcCall
  remove_object : IpcKind → ℕ → IpcCall

abbrev pub IpcHistory : Type 0
IpcHistory = List IpcCall

-- A failure is an errno.
pub record IpcNamespace : Type 0 where
  -- The files of `/newroot/dev/mqueue`.
  pub queues_reply : IpcHistory → Result (List String)
  pub remove_queue_reply : IpcHistory → String → Option ℕ
  -- The lines of `/proc/sysvipc/<kind>`.
  pub objects_reply : IpcHistory → IpcKind → Result (List (List ℕ))
  -- `msgctl`, `semctl` and `shmctl` with IPC_RMID.
  pub remove_object_reply : IpcHistory → IpcKind → ℕ → Option ℕ

abbrev pub Ipcs : Type 0 → Type 0
Ipcs A = Exec IpcHistory A

abbrev pub as_c_int : ℕ → Result ℕ
as_c_int n = if ltb n (2 ^ 31) then ok n else err (message "Invalid format of id")

-- The second word of each line; the kernel writes no sign.
unfoldable pub parse_ids : List (List ℕ) → Result (List ℕ)
unfolding parse_line
parse_ids [] = ok []
parse_ids (line ∷ lines) =
    and_then (parse_line line)
      λ n. and_then (as_c_int n) λ id. and_then (parse_ids lines) λ ids. ok (id ∷ ids)

abbrev pub skip_header : List (List ℕ) → List (List ℕ)
skip_header [] = []
skip_header (line ∷ lines) = lines

module _ (ns : IpcNamespace) where
  unfoldable pub remove_one : IpcKind → ℕ → Ipcs (Unit {0})
  remove_one kind id h = granted (ns.remove_object_reply h kind id) (remove_object kind id ∷ h)

  unfoldable pub remove_ids : IpcKind → List ℕ → Ipcs (Unit {0})
  unfolding remove_one
  remove_ids kind [] = skip
  remove_ids kind (id ∷ ids) = do remove_one kind id; remove_ids kind ids

  unfoldable pub list_ids : IpcKind → Ipcs (List ℕ)
  unfolding parse_ids
  list_ids kind h = (
    and_then (ns.objects_reply h kind) (λ lines. parse_ids (skip_header lines)),
    list_objects kind ∷ h,
  )

  -- Every id is read before the first is removed.
  unfoldable pub reset_sysv_set : IpcKind → Ipcs (Unit {0})
  unfolding list_ids remove_ids
  reset_sysv_set kind = do ids ← list_ids kind; remove_ids kind ids

  unfoldable pub remove_queue_file : String → Ipcs (Unit {0})
  remove_queue_file name h = granted (ns.remove_queue_reply h name) (remove_queue name ∷ h)

  unfoldable pub remove_queues : List String → Ipcs (Unit {0})
  unfolding remove_queue_file
  remove_queues [] = skip
  remove_queues (name ∷ names) = do remove_queue_file name; remove_queues names

  unfoldable pub list_queue_files : Ipcs (List String)
  list_queue_files h = (ns.queues_reply h, list_queues ∷ h)

  unfoldable pub reset : Ipcs (Unit {0})
  unfolding list_queue_files remove_queues reset_sysv_set
  reset = do
    names ← list_queue_files
    remove_queues names
    reset_sysv_set msg
    reset_sysv_set sem
    reset_sysv_set shm
