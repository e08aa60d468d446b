-- ===== src/Manager/Reply.antt =====
-- The reply of linux/manager.rs to a run, by its verdict.
use Prim.Native.Nat.{Ordering}
use Prim.Native.String.{String, compare}
use sunwalker_box.Common.{
  ℕ, zero, suc, Bool, true, false, if◌then◌else◌, ◌≡◌, refl, Option, none, some,
}
use sunwalker_box.Common.Int.{ℤ, pos, negsuc}
use sunwalker_box.Running.{
  Verdict, exit_code, signaled, cpu_time_limit_exceeded, real_time_limit_exceeded,
  idleness_time_limit_exceeded, memory_limit_exceeded,
}
use sunwalker_box.Manager.{RunReply, reply_of_verdict}

abbrev is : String → String → Bool
is s t = elim (compare s t) [ Ordering.eq ↦ true | _ ↦ false ]

abbrev magnitude : ℤ → ℕ
magnitude (pos n) = n
magnitude (negsuc n) = suc n

-- What a client reads off a reply.
unfoldable pub verdict_of_reply : RunReply → Option Verdict
verdict_of_reply r =
    if is r.limit_verdict "OK"
    then some (exit_code (magnitude r.exit_code))
    else if is r.limit_verdict "Signaled"
    then some (signaled (magnitude r.exit_code))
    else if is r.limit_verdict "CPUTimeLimitExceeded"
    then some cpu_time_limit_exceeded
    else if is r.limit_verdict "RealTimeLimitExceeded"
    then some real_time_limit_exceeded
    else if is r.limit_verdict "IdlenessTimeLimitExceeded"
    then some idleness_time_limit_exceeded
    else if is r.limit_verdict "MemoryLimitExceeded"
    then some memory_limit_exceeded
    else none

-- The reply tells the verdicts apart, the code of an exit and the number of a signal included.
pub verdict_of_reply-reply_of_verdict :
    (v : Verdict) → verdict_of_reply (reply_of_verdict v) ≡ some v
unfolding verdict_of_reply reply_of_verdict
verdict_of_reply-reply_of_verdict (exit_code code) = refl
verdict_of_reply-reply_of_verdict (signaled zero) = refl
verdict_of_reply-reply_of_verdict (signaled (suc n)) = refl
verdict_of_reply-reply_of_verdict cpu_time_limit_exceeded = refl
verdict_of_reply-reply_of_verdict real_time_limit_exceeded = refl
verdict_of_reply-reply_of_verdict idleness_time_limit_exceeded = refl
verdict_of_reply-reply_of_verdict memory_limit_exceeded = refl
