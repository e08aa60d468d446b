-- ===== src/SysvIpc/NextId.antt =====
-- linux/ipc.rs: the single calls about the IPC namespace, and the ids that the kernel is asked to give
-- next. The kernel answers each call, by all the calls before it, which are recorded, the latest
-- first.
use Prim.Native.String.{String}
use sunwalker_box.Common.{
  ℕ, suc, ◌^◌, ◌-◌, Option, none, some, List, [], ◌∷◌, leb, ◌==◌, if◌then◌else◌, arith, le→leb,
  ==_iff, Bool-cases, inl, inr, ap, ◌≡◌, refl, ◌<◌,
}
use sunwalker_box.Common.Int.{ℤ, pos, negsuc, negate}
use sunwalker_box.Common.Exec.{
  Answer, answer, answered, ok, message, Exec, pure, fail, ◌>>=◌, ◌>>◌, granted,
}
use sunwalker_box.Tracing.{IpcKind}
use sunwalker_box.Cgroups.{parse_number, parse_unsigned, parse_digits}
use sunwalker_box.Cgroups.Setup.{number_line, trim_start, trim_end}
use sunwalker_box.Cgroups.Setup.Limits.{parse-number_line}

pub data IdCall : Type 0 where
  unshare : ℕ → IdCall
  mount : String → String → IdCall
  set_permissions : String → ℕ → IdCall
  -- `/newroot/proc/{pid}/ns/ipc`.
  open_namespace : ℕ → IdCall
  setns : ℕ → IdCall
  -- `/proc/sys/kernel/{name}_next_id`.
  read_next_id : IpcKind → IdCall
  write_next_id : IpcKind → List ℕ → IdCall

abbrev pub IdHistory : Type 0
IdHistory = List IdCall

pub record IdHost : Type 0 where
  pub call_reply : IdHistory → IdCall → Option ℕ
  pub text_reply : IdHistory → IpcKind → Answer (List ℕ)

abbrev pub Ids : Type 0 → Type 0
Ids A = Exec IdHistory A

abbrev pub clone_newipc : ℕ
clone_newipc = 134217728

abbrev not_above : ℕ → Option ℕ → Option ℕ
not_above most none = none
not_above most (some n) = if leb n most then some n else none

abbrev as_positive : Option ℕ → Option ℤ
as_positive none = none
as_positive (some n) = some (pos n)

abbrev as_negative : Option ℕ → Option ℤ
as_negative none = none
as_negative (some n) = some (negate n)

-- `parse::<isize>()`, of 64 bits.
unfoldable pub parse_isize : List ℕ → Option ℤ
unfolding parse_number
parse_isize [] = none
parse_isize (c ∷ cs) =
    if c == 45
    then as_negative (not_above (2 ^ 63) (parse_unsigned cs))
    else as_positive (not_above (2 ^ 63 - 1) (parse_number (c ∷ cs)))

-- `format!("{id}\n")`.
abbrev pub id_line : ℤ → List ℕ
id_line (pos n) = number_line n
id_line (negsuc n) = 45 ∷ number_line (suc n)

abbrev pub valid_id : Option ℤ → Ids ℤ
valid_id none = fail (message "Invalid number format")
valid_id (some id) = pure id

module _ (host : IdHost) where
  unfoldable pub id_call : IdCall → Ids (Unit {0})
  id_call c h = granted (host.call_reply h c) (c ∷ h)

  unfoldable pub unshare_ipc_namespace : Ids (Unit {0})
  unfolding id_call
  unshare_ipc_namespace = id_call (unshare clone_newipc)

  -- With the permissions rwxrwxrwt.
  unfoldable pub mount_mqueue : String → Ids (Unit {0})
  unfolding id_call
  mount_mqueue path = do id_call (mount "mqueue" path); id_call (set_permissions path 1023)

  unfoldable pub join_process_ipc_namespace : ℕ → Ids (Unit {0})
  unfolding id_call
  join_process_ipc_namespace pid = do id_call (open_namespace pid); id_call (setns clone_newipc)

  unfoldable pub read_text : IpcKind → Ids (List ℕ)
  read_text kind h = (answered (host.text_reply h kind), read_next_id kind ∷ h)

  unfoldable pub get_next_id : IpcKind → Ids ℤ
  unfolding read_text parse_isize trim_start trim_end
  get_next_id kind = do text ← read_text kind; valid_id (parse_isize (trim_end (trim_start text)))

  unfoldable pub set_next_id : IpcKind → ℤ → Ids (Unit {0})
  unfolding id_call
  set_next_id kind id = id_call (write_next_id kind (id_line id))

minus_is_none : (cs : List ℕ) → parse_number (45 ∷ cs) ≡ none
unfolding parse_number parse_digits
minus_is_none cs = refl

-- What reads as a natural number in range reads as an integer.
parse_isize-pos :
    (w : List ℕ) (n : ℕ) → n < 2 ^ 63 → parse_number w ≡ some n → parse_isize w ≡ some (pos n)
parse_isize-pos [] n small e = unfold parse_number in absurd (cc)
parse_isize-pos (c ∷ cs) n small e = elim (Bool-cases (c == 45)) [
  | inl z ↦
      let (same, _) = ==_iff c 45 in
      let minus = ap (λ k. parse_number (k ∷ cs)) (same z) in
      let none_there = minus_is_none cs in absurd (cc)
  | inr z ↦ unfold parse_isize in rw z (rw e (rw (le→leb n (2 ^ 63 - 1) (omega arith)) refl))
]

-- The id that the kernel was given, and shows, is read back.
pub get_next_id-id_line :
    (host : IdHost) (kind : IpcKind) (n : ℕ) (h : IdHistory)
    → n < 2 ^ 63
    → host.text_reply h kind ≡ answer (id_line (pos n))
    → (get_next_id host kind h).0 ≡ ok (pos n)
unfolding get_next_id read_text ◌>>=◌ pure
get_next_id-id_line host kind n h small shown =
    let whole : n < 2 ^ 64 = omega arith in
    let read =
      parse_isize-pos (trim_end (trim_start (number_line n))) n small (parse-number_line n whole) in
    rw shown (rw read refl)
