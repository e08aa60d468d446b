-- ===== src/Manager.antt =====
-- linux/manager.rs: the commands of the manager, which runs programs and makes mounts read-only.
pub mod Exchange
pub mod Remount
pub mod Reply
use Prim.Native.String.{String}
use sunwalker_box.Common.{
  ℕ, ◌+◌, Bool, true, false, ◌||◌, Option, none, some, List, [], ◌∷◌, ◌==◌, if◌then◌else◌,
}
use sunwalker_box.Common.Int.{ℤ, pos, negsuc, negate}
use sunwalker_box.Common.Exec.{Result, ok, err, io, Exec, pure, fail, skip, ◌>>=◌, ◌>>◌}
use sunwalker_box.Running.{
  Verdict, exit_code, signaled, cpu_time_limit_exceeded, real_time_limit_exceeded,
  idleness_time_limit_exceeded, memory_limit_exceeded, RunResults,
}

-- Of `libc`; as sets of flags without a common bit they are added.
abbrev pub ms_rdonly : ℕ
ms_rdonly = 1

abbrev pub ms_nosuid : ℕ
ms_nosuid = 2

abbrev pub ms_nodev : ℕ
ms_nodev = 4

abbrev pub ms_noexec : ℕ
ms_noexec = 8

abbrev pub ms_remount : ℕ
ms_remount = 32

abbrev pub ms_bind : ℕ
ms_bind = 4096

-- The flags to try, in the order of likeliness.
abbrev pub flag_sets : List ℕ
flag_sets =
    0
    ∷ ms_nosuid
    ∷ ms_nodev
    ∷ (ms_nosuid + ms_nodev)
    ∷ ms_noexec
    ∷ (ms_noexec + ms_nosuid)
    ∷ (ms_noexec + ms_nodev)
    ∷ (ms_noexec + ms_nosuid + ms_nodev)
    ∷ []

-- `ErrorKind::PermissionDenied` is EPERM or EACCES.
abbrev pub is_denied : ℕ → Bool
is_denied errno = errno == 1 || errno == 13

-- The mounts that were tried, the latest first, by their flags.
abbrev pub Mounting : Type 0 → Type 0
Mounting A = Exec (List ℕ) A

module _ (mount_reply : List ℕ → ℕ → Option ℕ) where
  -- `bind_mount_opt`, which adds MS_BIND.
  unfoldable pub bind_mount_opt : ℕ → Mounting (Option ℕ)
  bind_mount_opt flags tried = (ok (mount_reply tried (flags + ms_bind)), (flags + ms_bind) ∷ tried)

  abbrev pub result_of : Option ℕ → Mounting (Unit {0})
  result_of none = skip
  result_of (some errno) = fail (io errno)

  -- The answer to one set of flags: a denial goes on to the next sets.
  abbrev pub after_attempt : Mounting (Unit {0}) → Option ℕ → Mounting (Unit {0})
  after_attempt next none = skip
  after_attempt next (some errno) = if is_denied errno then next else fail (io errno)

  -- The loop over the sets, with the result so far for when they run out.
  unfoldable pub try_flags : List ℕ → Option ℕ → Mounting (Unit {0})
  unfolding bind_mount_opt
  try_flags [] result = result_of result
  try_flags (flags ∷ rest) result = do
    reply ← bind_mount_opt (ms_remount + ms_rdonly + flags)
    after_attempt (try_flags rest reply) reply

  unfoldable pub remount_readonly : Mounting (Unit {0})
  unfolding try_flags
  remount_readonly = try_flags flag_sets none

pub record RunReply : Type 0 where
  pub limit_verdict : String
  pub exit_code : ℤ

-- The verdict in the reply to a `Run`; the times and the memory of the results stand beside it.
unfoldable pub reply_of_verdict : Verdict → RunReply
reply_of_verdict (exit_code code) = record { limit_verdict = "OK"; exit_code = pos code }
reply_of_verdict (signaled signal) = record {
  limit_verdict = "Signaled";
  exit_code = negate signal;
}
reply_of_verdict cpu_time_limit_exceeded = record {
  limit_verdict = "CPUTimeLimitExceeded";
  exit_code = negsuc 0;
}
reply_of_verdict real_time_limit_exceeded = record {
  limit_verdict = "RealTimeLimitExceeded";
  exit_code = negsuc 0;
}
reply_of_verdict idleness_time_limit_exceeded = record {
  limit_verdict = "IdlenessTimeLimitExceeded";
  exit_code = negsuc 0;
}
reply_of_verdict memory_limit_exceeded = record {
  limit_verdict = "MemoryLimitExceeded";
  exit_code = negsuc 0;
}
