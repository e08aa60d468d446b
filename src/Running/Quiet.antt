-- ===== src/Running/Quiet.antt =====
-- Which processes the tracer of linux/running.rs resumes at an event. Each stop that is reported
-- leaves a process waiting, so one that is not resumed hangs, and one that is resumed twice makes
-- the second call fail.
use sunwalker_box.Common.{
  ℕ, zero, suc, ◌≡◌, refl, Bool, true, false, Option, none, some, List, [], ◌∷◌, if◌then◌else◌, ◌∙◌,
  ◌==◌,
}
use sunwalker_box.Common.Exec.{Result, ok, err, pure, skip, ◌>>=◌}
use sunwalker_box.Tracing.{
  AuxiliaryEntry, Call, cont, step, Registers, History, Kernel, Sys, call, init, read_word,
  write_word, get_registers, set_registers, skip_environment, get_auxiliary_vector_address,
  read_entries, get_auxiliary_entries, ignore_vdso, disable_vdso, get_signal_info, get_event_msg,
  syscall_info,
}

-- The processes that were resumed, the latest first.
unfoldable pub resumed : History → List ℕ
resumed [] = []
resumed (cont pid _ ∷ h) = pid ∷ resumed h
resumed (step pid ∷ h) = pid ∷ resumed h
resumed (_ ∷ h) = resumed h

-- `n` times the process on top of those before.
unfoldable pub again : ℕ → ℕ → List ℕ → List ℕ
again zero pid pids = pids
again (suc n) pid pids = pid ∷ again n pid pids

-- Calls that resume no process, whatever they answer.
pub record Quiet {A : Type 0} (m : Sys A) : Type 0 where
  pub at : (h : History) → resumed (m h).1 ≡ resumed h

module _ {A : Type 0} where
  Quiet-pure : (a : A) → Quiet (pure a)
  unfolding pure
  Quiet-pure a = record { at = λ h. refl }

  pub Quiet-call :
      (c : Call) (reply : History → Result A)
      → ((h : History) → resumed (c ∷ h) ≡ resumed h)
      → Quiet (call c reply)
  unfolding call
  Quiet-call c reply e = record { at = e }

  Quiet-if : (b : Bool) (m n : Sys A) → Quiet m → Quiet n → Quiet (if b then m else n)
  Quiet-if true m n qm qn = qm
  Quiet-if false m n qm qn = qn

  Quiet-nat :
      (n : ℕ) (m : Sys A) (f : ℕ → Sys A)
      → Quiet m
      → ((i : ℕ) → Quiet (f i))
      → Quiet (elim n [ zero ↦ m | suc i ↦ f i ])
  Quiet-nat zero m f qm qf = qm
  Quiet-nat (suc i) m f qm qf = qf i

  Quiet-option :
      {B : Type 0} (o : Option B) (m : Sys A) (f : B → Sys A)
      → Quiet m
      → ((b : B) → Quiet (f b))
      → Quiet (elim o [ none ↦ m | some b ↦ f b ])
  Quiet-option none m f qm qf = qm
  Quiet-option (some b) m f qm qf = qf b

Quiet-skip : Quiet skip
unfolding skip
Quiet-skip = record { at = λ h. refl }

module _ {A B : Type 0} where
  Quiet-continue :
      (r : Result A) (f : A → Sys B)
      → ((a : A) → Quiet (f a))
      → (h h' : History) → resumed h' ≡ resumed h
      → resumed (((λ h. (r, h')) >>= f) h).1 ≡ resumed h
  unfolding ◌>>=◌
  Quiet-continue (ok a) f qf h h' e = (qf a).at h' ∙ e
  Quiet-continue (err c) f qf h h' e = e

  Quiet-bind : (m : Sys A) (f : A → Sys B) → Quiet m → ((a : A) → Quiet (f a)) → Quiet (m >>= f)
  unfolding ◌>>=◌
  Quiet-bind m f qm qf = record {
    at = λ h. let (r, h') = m h in Quiet-continue r f qf h h' (qm.at h);
  }

module _ (k : Kernel) (pid : ℕ) where
  pub init-Quiet : Quiet (init k pid)
  unfolding init resumed
  init-Quiet = Quiet-call _ _ (λ h. refl)

  pub read_word-Quiet : (address : ℕ) → Quiet (read_word k pid address)
  unfolding read_word resumed
  read_word-Quiet address = Quiet-call _ _ (λ h. refl)

  write_word-Quiet : (address value : ℕ) → Quiet (write_word k pid address value)
  unfolding write_word resumed
  write_word-Quiet address value = Quiet-call _ _ (λ h. refl)

  pub get_registers-Quiet : Quiet (get_registers k pid)
  unfolding get_registers resumed
  get_registers-Quiet = Quiet-call _ _ (λ h. refl)

  pub set_registers-Quiet : (regs : Registers) → Quiet (set_registers k pid regs)
  unfolding set_registers resumed
  set_registers-Quiet regs = Quiet-call _ _ (λ h. refl)

  pub get_signal_info-Quiet : Quiet (get_signal_info k pid)
  unfolding get_signal_info resumed
  get_signal_info-Quiet = Quiet-call _ _ (λ h. refl)

  pub get_event_msg-Quiet : Quiet (get_event_msg k pid)
  unfolding get_event_msg resumed
  get_event_msg-Quiet = Quiet-call _ _ (λ h. refl)

  pub syscall_info-Quiet : Quiet (syscall_info k pid)
  unfolding syscall_info resumed
  syscall_info-Quiet = Quiet-call _ _ (λ h. refl)

  ruleset quiet_rules = (
    Quiet-pure, Quiet-skip, Quiet-bind, Quiet-if, Quiet-nat, Quiet-option, read_word-Quiet,
    write_word-Quiet, get_registers-Quiet,
  )

  skip_environment-Quiet : (fuel address : ℕ) → Quiet (skip_environment k pid fuel address)
  unfolding skip_environment
  skip_environment-Quiet zero address = Quiet-pure none
  skip_environment-Quiet (suc fuel) address =
      Quiet-bind _ _ (read_word-Quiet address)
        (λ word. Quiet-nat word _ _ (Quiet-pure _) (λ _. skip_environment-Quiet fuel _))

  get_auxiliary_vector_address-Quiet : (fuel : ℕ) → Quiet (get_auxiliary_vector_address k pid fuel)
  unfolding get_auxiliary_vector_address
  get_auxiliary_vector_address-Quiet fuel = search (quiet_rules, skip_environment-Quiet)

  read_entries-Quiet :
      (fuel address : ℕ) (entries : List AuxiliaryEntry)
      → Quiet (read_entries k pid fuel address entries)
  unfolding read_entries
  read_entries-Quiet zero address entries = Quiet-pure none
  read_entries-Quiet (suc fuel) address entries = Quiet-bind _ _ (read_word-Quiet _) (λ id.
      Quiet-bind _ _ (read_word-Quiet _)
        (λ value. Quiet-if (id == 0) _ _ (Quiet-pure _) (read_entries-Quiet fuel _ _)))

  get_auxiliary_entries-Quiet : (fuel : ℕ) → Quiet (get_auxiliary_entries k pid fuel)
  unfolding get_auxiliary_entries
  get_auxiliary_entries-Quiet fuel =
      Quiet-bind _ _ (get_auxiliary_vector_address-Quiet fuel)
        (λ address. Quiet-option address _ _ (Quiet-pure none) (λ a. read_entries-Quiet fuel a []))

  ignore_vdso-Quiet : (entries : List AuxiliaryEntry) → Quiet (ignore_vdso k pid entries)
  unfolding ignore_vdso
  ignore_vdso-Quiet [] = Quiet-skip
  ignore_vdso-Quiet (entry ∷ entries) =
      Quiet-bind _ _ (Quiet-if (entry.id == 33) _ _ (write_word-Quiet _ _) Quiet-skip)
        (λ _. ignore_vdso-Quiet entries)

  pub disable_vdso-Quiet : (fuel : ℕ) → Quiet (disable_vdso k pid fuel)
  unfolding disable_vdso
  disable_vdso-Quiet fuel = Quiet-bind _ _ (get_auxiliary_entries-Quiet fuel) (λ entries.
      Quiet-option entries _ _ (Quiet-pure none)
        (λ es. Quiet-bind _ _ (ignore_vdso-Quiet es) (λ _. Quiet-pure _)))
