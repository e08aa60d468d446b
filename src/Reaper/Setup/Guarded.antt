-- ===== src/Reaper/Setup/Guarded.antt =====
-- What the reaper of linux/reaper.rs has done before it starts the manager.
use mathlib.Core.Path.{subst}
use sunwalker_box.Common.{
  ℕ, ◌≡◌, refl, sym, ap, ◌∙◌, Bool, true, false, some, List, [], ◌∷◌, ltb, ◌==◌, Bool-cases, inl,
  inr, arith,
}
use sunwalker_box.Common.Exec.{Answer, answer, errno}
use sunwalker_box.Common.Exec.Triples.{
  Triple-ends, Triple-pure, Triple-fail, Triple-unwrap, Triple-if_cases, Triple-bind, Triple-weaken,
  Triple-skip, Triple-given, Triple-weaken_end,
}
use sunwalker_box.Reaper.Setup.{
  sigsegv, sigabrt, SetupCall, getpid, block_signals, set_pdeathsig, poll_parent, list_fds, setsid,
  create_proc_cgroup, clone_cgroup, start_manager, handle, get_flags, SetupHistory, SetupHost,
  fd_number, check_fd, check_fds, check_cloexec, launch_manager, follow_parent, set_up,
}
use sunwalker_box.Reaper.Setup.Steps.{
  AllGood, early_calls, asked, asked_each, LooksAtFds, Guard, Guarded, Anywhere, expected-answer,
  At, Step, Step-At, Keeps, Keeps-request, Keeps-require, Replied, Replied-At, Keeps-or_exit,
}

module _ (host : SetupHost) (ignore : Bool) where
  module _ (k : SetupHistory) where
    Keeps-check_fd :
        (fd : ℕ)
        → Keeps host ignore
            (At host ignore k)
            (λ _. At host ignore (asked (some fd) k))
            (check_fd host fd)
    unfolding check_fd
    Keeps-check_fd fd = elim (Bool-cases (ltb fd 3)) [
      | inl e ↦ rw e (Triple-skip (λ _ p. p))
      | inr e ↦ rw e (
          Triple-bind
            {Q = λ flags.
              Replied host ignore k (get_flags fd) (λ h. host.flags_reply h ≡ answer flags)}
            _ _
            (Keeps-request host ignore _ _ (λ h i p. i)
              (λ flags h p e. (h, refl, p, expected-answer _ flags e)))
            (λ flags.
              Triple-if_cases _ _ _
                (λ set. Triple-skip (λ h (h', e, p, got).
                  Step-At host ignore (get_flags fd) k h (h', e, p, (flags, got, set))))
                (λ _. Triple-fail _)))
    ]

  Keeps-check_fds :
      (names : List (Answer (List ℕ))) (k : SetupHistory)
      → Keeps host ignore
          (At host ignore k)
          (λ _. At host ignore (asked_each names k))
          (check_fds host names)
  unfolding check_fds
  Keeps-check_fds [] k = Triple-skip (λ _ p. p)
  Keeps-check_fds (errno e ∷ names) k = Triple-fail _
  Keeps-check_fds (answer name ∷ names) k =
      Triple-bind {Q = λ fd h. (fd_number name ≡ some fd) × At host ignore k h} _ _
        (Triple-unwrap _ (λ fd e h p. (e, p)))
        (λ fd.
          Triple-bind {Q = λ _ h. At host ignore (asked (fd_number name) k) h} _ _
            (Triple-given _ (λ e.
              subst
                (λ o.
                  Keeps host ignore (At host ignore k) (λ _. At host ignore (asked o k))
                    (check_fd host fd))
                (sym e) (Keeps-check_fd k fd)))
            (λ _. Keeps-check_fds names _))

  -- The descriptors were looked at, if they are to be.
  abbrev Looked : SetupHistory → Type 0
  Looked h = AllGood host h × LooksAtFds host ignore h

  Keeps-check_cloexec :
      Keeps host ignore (At host ignore early_calls) (λ _. Looked) (check_cloexec host ignore)
  unfolding check_cloexec
  Keeps-check_cloexec =
      elim ignore
        as (λ b.
          Keeps host ignore (At host ignore early_calls)
            (λ _ h. AllGood host h × LooksAtFds host b h) (check_cloexec host b)) [
              | true ↦ Triple-skip (λ _ p. p)
              | false ↦
                  Triple-bind
                    {Q = λ names h.
                      (host.fds_reply early_calls ≡ answer names)
                      × At host ignore (list_fds ∷ early_calls) h}
                    _ _
                    (Keeps-request host ignore list_fds _ (λ h i p. i)
                      (λ names h (g, same) e.
                        let got = expected-answer _ names e in
                        (
                          ap host.fds_reply (sym same) ∙ got,
                          Step-At host ignore list_fds early_calls _
                              (h, refl, (g, same), (names, got)),
                        )))
                    (λ names. Triple-given _ (λ got.
                      Triple-weaken_end _ (λ _ h (g, same). (g, (names, got, same)))
                        (Keeps-check_fds names _)))
            ]

  Step-AllGood :
      (c : SetupCall) (P : SetupHistory → Type 0) (h : SetupHistory)
      → ((h' : SetupHistory) → P h' → AllGood host h')
      → Step host ignore c P h
      → AllGood host h
  Step-AllGood c P h all (h', e, p, good) = subst (AllGood host) (sym e) (good, all h' p)

  Step-Looked :
      (h : SetupHistory)
      → Step host ignore clone_cgroup
          (Step host ignore create_proc_cgroup (Step host ignore setsid Looked))
          h
      → AllGood host h × Guard host ignore h
  Step-Looked h step =
      let (h3, e3, (h2, e2, (h1, e1, (g, looked), g1), g2), g3) = step in
      let whole : h ≡ clone_cgroup ∷ create_proc_cgroup ∷ setsid ∷ h1 =
        e3 ∙ ap (λ x. clone_cgroup ∷ x) (e2 ∙ ap (λ x. create_proc_cgroup ∷ x) e1) in
      (
        Step-AllGood clone_cgroup
            (Step host ignore create_proc_cgroup (Step host ignore setsid Looked)) h
            (λ a.
              Step-AllGood create_proc_cgroup (Step host ignore setsid Looked) a
                (λ b. Step-AllGood setsid Looked b (λ _ p. p.0)))
            step,
        subst (Guard host ignore) (sym whole) looked,
      )

  Keeps-launch_manager : Keeps host ignore Looked Anywhere (launch_manager host)
  unfolding launch_manager
  Keeps-launch_manager =
      Triple-bind _ _ (Keeps-require host ignore setsid (λ h i p. i) (λ h n. n)) (λ _.
        Triple-bind _ _ (Keeps-require host ignore create_proc_cgroup (λ h i p. i) (λ h n. n)) (λ _.
          Triple-bind _ _ (Keeps-require host ignore clone_cgroup (λ h i p. i) (λ h n. n)) (λ _.
            Triple-bind {Q = λ _ _. Unit {0}} _ _
              (Keeps-request host ignore start_manager _
                (λ h i p. let (good, guard) = Step-Looked h p in (good, guard, i)) (λ _ _ _ _. tt))
              (λ pid. Triple-pure _ (λ _ _. tt)))))

  abbrev blocked_calls : SetupHistory
  blocked_calls = handle sigabrt ∷ handle sigsegv ∷ block_signals ∷ getpid ∷ []

  Keeps-follow_parent :
      Keeps host ignore (At host ignore blocked_calls) Anywhere (follow_parent host ignore)
  unfolding follow_parent
  Keeps-follow_parent =
      Triple-bind _ _ (Keeps-require host ignore set_pdeathsig (λ h i p. i) (λ h n. n)) (λ _.
        Triple-bind
          {Q = λ ended.
            Replied host ignore (set_pdeathsig ∷ blocked_calls) poll_parent
              (λ h. host.poll_reply h ≡ answer ended)}
          _ _
          (Keeps-request host ignore poll_parent _ (λ h i p. i)
            (λ ended h p e. (
              h,
              refl,
              Step-At host ignore set_pdeathsig blocked_calls h p,
              expected-answer _ ended e,
            )))
          (λ ended.
            Triple-if_cases ended _ _ (λ e. Triple-pure _ (λ _ _. tt))
              (λ e.
                Triple-bind _ _
                  (Triple-weaken _
                    (λ h.
                      Replied-At host ignore (set_pdeathsig ∷ blocked_calls) poll_parent
                        (λ h'. host.poll_reply h' ≡ answer ended) h (λ h' got. got ∙ ap answer e))
                    Keeps-check_cloexec)
                  (λ _. Keeps-launch_manager))))

  Keeps-set_up : Keeps host ignore (At host ignore []) Anywhere (set_up host ignore)
  unfolding set_up
  Keeps-set_up =
      Triple-bind {Q = λ pid. Replied host ignore [] getpid (λ h. host.pid_reply h ≡ pid)} _ _
        (Keeps-request host ignore getpid _ (λ h i p. i) (λ pid h p e. (h, refl, p, cc)))
        (λ pid.
          Triple-bind {Q = λ _. At host ignore (getpid ∷ [])} _ _
            (Triple-if_cases (pid == 1) _ _
              (λ one. Triple-skip (λ h.
                Replied-At host ignore [] getpid (λ h'. host.pid_reply h' ≡ pid) h
                  (λ h' got. got ∙ ground arith)))
              (λ _. Triple-fail _))
            (λ _.
              Keeps-or_exit host ignore _ block_signals (λ h n. n) _ (λ h i p. i)
                (Keeps-or_exit host ignore _ (handle sigsegv) (λ h n. n) _ (λ h i p. i)
                  (Keeps-or_exit host ignore _ (handle sigabrt) (λ h n. n) _ (λ h i p. i)
                    Keeps-follow_parent))))

  -- Whatever is answered, the manager is started only by a process with PID 1, after SIGUSR1, SIGIO
  -- and SIGCHLD were blocked, both crashing signals were handled, the death of the parent was asked to
  -- be signalled and then the parent was found alive; unless this is ignored, the flags of every
  -- descriptor in /proc/self/fd from 3 on were found to have FD_CLOEXEC; then the process had a session
  -- of its own and the cgroup was made.
  pub set_up-Guarded : Guarded host ignore (set_up host ignore []).1
  set_up-Guarded = (Triple-ends _ [] Keeps-set_up tt (tt, refl)).0
