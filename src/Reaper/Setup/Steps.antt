-- ===== src/Reaper/Setup/Steps.antt =====
-- The calls of the reaper of linux/reaper.rs before its loop, one by one, and what is known after each.
use mathlib.Core.Path.{subst}
use sunwalker_box.Common.{
  ℕ, ◌≡◌, refl, sym, ap, ◌∙◌, Bool, true, false, Option, none, some, List, [], ◌∷◌, ltb,
  if◌then◌else◌,
}
use sunwalker_box.Common.Exec.{Answer, answer, errno, answered, Result, ok, ◌>>=◌}
use sunwalker_box.Common.Exec.Triples.{
  Triple, Triple-pure, Triple-bind, Triple-called, Triple-weaken,
}
use sunwalker_box.Reaper.{expected}
use sunwalker_box.Reaper.Setup.{
  sigsegv, sigabrt, SetupCall, getpid, block_signals, set_pdeathsig, poll_parent, list_fds, setsid,
  create_proc_cgroup, clone_cgroup, start_manager, handle, get_flags, SetupHistory, SetupHost,
  Setup, Prepared, request, or_exit, demanded, fd_number, is_cloexec,
}

-- The answer that lets the reaper go on.
abbrev pub Good : SetupHost → SetupHistory → SetupCall → Type 0
Good host h getpid = host.pid_reply h ≡ 1
Good host h poll_parent = host.poll_reply h ≡ answer false
Good host h list_fds = (names : List (Answer (List ℕ))) × (host.fds_reply h ≡ answer names)
Good host h (get_flags fd) =
    (flags : ℕ) × (host.flags_reply h ≡ answer flags) × (is_cloexec flags ≡ true)
Good host h start_manager = (pid : ℕ) × (host.manager_reply h ≡ answer pid)
Good host h c = host.step_reply h c ≡ none

abbrev pub AllGood : SetupHost → SetupHistory → Type 0
AllGood host [] = Unit {0}
AllGood host (c ∷ h) = Good host h c × AllGood host h

-- The calls that are made before the descriptors are looked at, the latest first.
abbrev pub early_calls : SetupHistory
early_calls =
    poll_parent ∷ set_pdeathsig ∷ handle sigabrt ∷ handle sigsegv ∷ block_signals ∷ getpid ∷ []

abbrev pub asked : Option ℕ → SetupHistory → SetupHistory
asked none h = h
asked (some fd) h = if ltb fd 3 then h else get_flags fd ∷ h

-- The flags of each descriptor in the directory from 3 on were asked for.
abbrev pub asked_each : List (Answer (List ℕ)) → SetupHistory → SetupHistory
asked_each [] h = h
asked_each (errno e ∷ names) h = asked_each names h
asked_each (answer name ∷ names) h = asked_each names (asked (fd_number name) h)

abbrev pub LooksAtFds : SetupHost → Bool → SetupHistory → Type 0
LooksAtFds host true h = h ≡ early_calls
LooksAtFds host false h =
    (names : List (Answer (List ℕ))) × (host.fds_reply early_calls ≡ answer names)
    × (h ≡ asked_each names (list_fds ∷ early_calls))

-- What was done before the manager was started.
abbrev pub Guard : SetupHost → Bool → SetupHistory → Type 0
Guard host ignore (clone_cgroup ∷ create_proc_cgroup ∷ setsid ∷ h) = LooksAtFds host ignore h
Guard host ignore h = ⊥

abbrev pub Guarded : SetupHost → Bool → SetupHistory → Type 0
Guarded host ignore [] = Unit {0}
Guarded host ignore (start_manager ∷ h) =
    AllGood host h × Guard host ignore h × Guarded host ignore h
Guarded host ignore (_ ∷ h) = Guarded host ignore h

abbrev pub Anywhere : Prepared → SetupHistory → Type 0
Anywhere next h = Unit {0}

demanded-none : (o : Option ℕ) → demanded o ≡ ok tt → o ≡ none
demanded-none none e = refl
demanded-none (some x) e = absurd (cc)

pub expected-answer :
    {A : Type 0} (x : Answer A) (a : A) → expected (answered x) ≡ ok a → x ≡ answer a
expected-answer (answer b) a e = cc
expected-answer (errno x) a e = absurd (cc)

module _ (host : SetupHost) (ignore : Bool) where
  -- After good answers, the history is this one.
  abbrev pub At : SetupHistory → SetupHistory → Type 0
  At k h = AllGood host h × (h ≡ k)

  -- After the good answer to this call, where `P` held before it.
  abbrev pub Step : SetupCall → (SetupHistory → Type 0) → SetupHistory → Type 0
  Step c P h = (h' : SetupHistory) × (h ≡ c ∷ h') × P h' × Good host h' c

  pub Step-At : (c : SetupCall) (k h : SetupHistory) → Step c (At k) h → At (c ∷ k) h
  Step-At c k h (h', e, (g, same), good) =
      (subst (AllGood host) (sym e) (good, g), e ∙ ap (λ x. c ∷ x) same)

  abbrev pub Keeps :
      {A : Type 0} → (SetupHistory → Type 0) → (A → SetupHistory → Type 0) → Setup A → Type 0
  Keeps P Q m = Triple (Guarded host ignore) P Q m

  -- A call after which the manager is guarded where it was.
  abbrev IsTame : SetupCall → (SetupHistory → Type 0) → Type 0
  IsTame c P = (h : SetupHistory) → Guarded host ignore h → P h → Guarded host ignore (c ∷ h)

  pub Keeps-request :
      {A : Type 0} {P : SetupHistory → Type 0} {Q : A → SetupHistory → Type 0} (c : SetupCall)
      (reply : SetupHistory → Result A)
      → IsTame c P
      → ((a : A) (h : SetupHistory) → P h → reply h ≡ ok a → Q a (c ∷ h))
      → Keeps P Q (request c reply)
  unfolding request
  Keeps-request c reply tame q = Triple-called c (λ h s. (reply h, s)) (λ h s. refl) tame q

  pub Keeps-require :
      {P : SetupHistory → Type 0} (c : SetupCall)
      → IsTame c P
      → ((h : SetupHistory) → host.step_reply h c ≡ none → Good host h c)
      → Keeps P (λ _. Step c P) (request c (λ h. demanded (host.step_reply h c)))
  Keeps-require c tame good =
      Keeps-request c _ tame
        (λ a h p e. (h, refl, p, good h (demanded-none (host.step_reply h c) e)))

  -- The call was made after these, and its answer has `F`.
  abbrev pub Replied : SetupHistory → SetupCall → (SetupHistory → Type 0) → SetupHistory → Type 0
  Replied k c F h = (h' : SetupHistory) × (h ≡ c ∷ h') × At k h' × F h'

  pub Replied-At :
      (k : SetupHistory) (c : SetupCall) (F : SetupHistory → Type 0) (h : SetupHistory)
      → ((h' : SetupHistory) → F h' → Good host h' c)
      → Replied k c F h
      → At (c ∷ k) h
  Replied-At k c F h good (h', e, p, f) = Step-At c k h (h', e, p, good h' f)

  abbrev Tried : SetupCall → SetupHistory → Option ℕ → SetupHistory → Type 0
  Tried c k r = Replied k c (λ h. host.step_reply h c ≡ r)

  module _ (k : SetupHistory) (c : SetupCall)
      (good : (h : SetupHistory) → host.step_reply h c ≡ none → Good host h c) where
    exits_or :
        (r : Option ℕ) (rest : Setup Prepared)
        → Keeps (At (c ∷ k)) Anywhere rest
        → Keeps (Tried c k r) Anywhere (or_exit r 1 rest)
    exits_or none rest kr =
        Triple-weaken _ (λ h (h', e, p, n). Step-At c k h (h', e, p, good h' n)) kr
    exits_or (some e) rest kr = Triple-pure _ (λ _ _. tt)

    -- Where the call failed the process exits.
    pub Keeps-or_exit :
        (rest : Setup Prepared)
        → IsTame c (At k)
        → Keeps (At (c ∷ k)) Anywhere rest
        → Keeps
            (At k)
            Anywhere
            (request c (λ h. ok (host.step_reply h c)) >>= λ r. or_exit r 1 rest)
    Keeps-or_exit rest tame kr =
        Triple-bind {Q = Tried c k} _ _ (Keeps-request c _ tame (λ r h p e. (h, refl, p, cc)))
          (λ r. exits_or r rest kr)
