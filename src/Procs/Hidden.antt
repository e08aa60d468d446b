-- ===== src/Procs/Hidden.antt =====
-- What of `/proc` is hidden when `mount_procfs` of linux/procs.rs returns.
use Prim.Native.String.{String}
use mathlib.Core.Path.{subst}
use sunwalker_box.Common.{
  ℕ, ◌≡◌, refl, sym, ap, ◌∙◌, Bool, true, Option, none, some, List, [], ◌∷◌, Bool-cases, inl, inr,
}
use sunwalker_box.Common.Exec.{Failure, Result, ok, err, skip, fail, bind_returned, ◌>>=◌, granted}
use sunwalker_box.Procs.{
  Target, join, ProcCall, mount_proc, metadata, bind_mount, bind_readonly, ProcHistory, ProcHost,
  hidden_names, source_of, is_not_found, proc_call, ask_metadata, hide_found, hide_name, hide_names,
  mount_procfs,
}

-- Each name in its turn was either not there, or an empty directory or file of its own kind was
-- mounted on it and made read-only; nothing else was called.
pub data Hidden (host : ProcHost) (proc_path : String)
    : List String → ProcHistory → ProcHistory → Type 0 where
  finished : {h : ProcHistory} → Hidden host proc_path [] h h
  absent :
      {name : String} {names : List String} {h h' : ProcHistory} {e : Failure}
      → host.metadata_reply h (join proc_path name) ≡ err e
      → is_not_found e ≡ true
      → Hidden host proc_path names (metadata (join proc_path name) ∷ h) h'
      → Hidden host proc_path (name ∷ names) h h'
  covered :
      {name : String} {names : List String} {h h' : ProcHistory} {is_dir : Bool}
      → host.metadata_reply h (join proc_path name) ≡ ok is_dir
      → host.call_reply
          (metadata (join proc_path name) ∷ h)
          (bind_mount (source_of is_dir) (join proc_path name))
        ≡ none
      → host.call_reply
          (bind_mount (source_of is_dir) (join proc_path name) ∷ metadata (join proc_path name) ∷ h)
          (bind_readonly (join proc_path name))
        ≡ none
      → Hidden host proc_path names
          (bind_readonly (join proc_path name)
            ∷ bind_mount (source_of is_dir) (join proc_path name)
            ∷ metadata (join proc_path name)
            ∷ h)
          h'
      → Hidden host proc_path (name ∷ names) h h'

-- The files and directories that tell of the host.
abbrev pub telling_names : List String
telling_names =
    "acpi" ∷ "asound" ∷ "buddyinfo" ∷ "bus" ∷ "cgroups" ∷ "cmdline" ∷ "consoles" ∷ "devices"
    ∷ "diskstats" ∷ "dma" ∷ "driver" ∷ "fb" ∷ "fs" ∷ "interrupts" ∷ "iomem" ∷ "ioports" ∷ "irq"
    ∷ "kallsyms" ∷ "kcore" ∷ "key-users" ∷ "keys" ∷ "kmsg" ∷ "loadavg" ∷ "mdstat" ∷ "meminfo"
    ∷ "misc" ∷ "modules" ∷ "mtd" ∷ "partitions" ∷ "pressure" ∷ "sched_debug" ∷ "schedstat" ∷ "scsi"
    ∷ "softirqs" ∷ "stat" ∷ "swaps" ∷ "sys/dev" ∷ "uptime" ∷ "vmstat" ∷ "zoneinfo" ∷ []

-- A call that returned succeeded, and was recorded.
succeeded : (o : Option ℕ) (h h' : ProcHistory) → granted o h ≡ (ok tt, h') → (o ≡ none) × (h ≡ h')
unfolding skip fail
succeeded none h h' e = (refl, ap (λ r. r.1) e)
succeeded (some n) h h' e = absurd (cc)

returned : {r : Result (Unit {0}) × ProcHistory} {u : Unit {0}} → r.0 ≡ ok u → r ≡ (ok tt, r.1)
returned {r} h = ap (λ o. (o, r.1)) h

module _ (host : ProcHost) where
  proc_call_lem :
      (c : ProcCall) (h h' : ProcHistory)
      → proc_call host c h ≡ (ok tt, h')
      → (host.call_reply h c ≡ none) × (c ∷ h ≡ h')
  unfolding proc_call
  proc_call_lem c h h' e = succeeded (host.call_reply h c) (c ∷ h) h' e

  -- What `hide_found` has called, by what was found.
  Covers : Target → Result Bool → ProcHistory → ProcHistory → Type 0
  Covers target (ok is_dir) h h' =
      (host.call_reply h (bind_mount (source_of is_dir) target) ≡ none)
      × (host.call_reply (bind_mount (source_of is_dir) target ∷ h) (bind_readonly target) ≡ none)
      × (bind_readonly target ∷ bind_mount (source_of is_dir) target ∷ h ≡ h')
  Covers target (err e) h h' = (is_not_found e ≡ true) × (h ≡ h')

  hide_found-Covers :
      (target : Target) (found : Result Bool) (h h' : ProcHistory)
      → hide_found host target found h ≡ (ok tt, h')
      → Covers target found h h'
  unfolding hide_found Covers
  hide_found-Covers target (ok is_dir) h h' e =
      let (_, one, e') = bind_returned _ _ h tt h' e in
      let (granted, first) = proc_call_lem _ h _ (returned one) in
      let (granted', last) = proc_call_lem _ _ h' e' in
      (
        granted,
        subst (λ g. host.call_reply g (bind_readonly target) ≡ none) (sym first) granted',
        ap (λ g. bind_readonly target ∷ g) first ∙ last,
      )
  hide_found-Covers target (err e) h h' r = elim (Bool-cases (is_not_found e)) [
    | inl z ↦ (z, unfold skip in ap (λ q. q.1) (rw z at r))
    | inr z ↦ let failed = rw z at r in unfold fail in absurd (cc)
  ]

  hide_name-Covers :
      (target : Target) (h h' : ProcHistory)
      → hide_name host target h ≡ (ok tt, h')
      → Covers target (host.metadata_reply h target) (metadata target ∷ h) h'
  unfolding hide_name ask_metadata ◌>>=◌
  hide_name-Covers target h h' e =
      hide_found-Covers target (host.metadata_reply h target) (metadata target ∷ h) h' e

  -- The names after the first are hidden from where the first was.
  hidden_first :
      (proc_path name : String) (names : List String) (h after h' : ProcHistory)
      (found : Result Bool)
      → host.metadata_reply h (join proc_path name) ≡ found
      → Covers (join proc_path name) found (metadata (join proc_path name) ∷ h) after
      → Hidden host proc_path names after h'
      → Hidden host proc_path (name ∷ names) h h'
  unfolding Covers
  hidden_first proc_path name names h after h' (ok is_dir) m (granted, granted', went) rest =
      covered m granted granted' (subst (λ g. Hidden host proc_path names g h') (sym went) rest)
  hidden_first proc_path name names h after h' (err e) m (none_there, went) rest =
      absent m none_there (subst (λ g. Hidden host proc_path names g h') (sym went) rest)

  hide_names-Hidden :
      (proc_path : String) (names : List String) (h h' : ProcHistory)
      → hide_names host proc_path names h ≡ (ok tt, h')
      → Hidden host proc_path names h h'
  unfolding hide_names
  hide_names-Hidden proc_path [] h h' e =
      unfold skip in subst (Hidden host proc_path [] h) (ap (λ r. r.1) e) finished
  hide_names-Hidden proc_path (name ∷ names) h h' e =
      let target : Target = join proc_path name in
      let (_, one, later) = bind_returned _ _ h tt h' e in
      let rest = hide_names-Hidden proc_path names _ h' later in
      hidden_first proc_path name names h _ h' (host.metadata_reply h target) refl
        (hide_name-Covers target h _ (returned {r = hide_name host target h} one)) rest

  -- Where `mount_procfs` returns, `/proc` was mounted, and then each of the forty names that tell of the
  -- host, in their order, was either not there or was covered by an empty directory or file and made
  -- read-only, each by a call that succeeded; no other call was made.
  pub mount_procfs-Hidden :
      (proc_path : String) (h h' : ProcHistory)
      → mount_procfs host proc_path h ≡ (ok tt, h')
      → (host.call_reply h (mount_proc proc_path) ≡ none)
        × Hidden host proc_path telling_names (mount_proc proc_path ∷ h) h'
  unfolding mount_procfs hidden_names
  mount_procfs-Hidden proc_path h h' e =
      let (_, one, e') = bind_returned _ _ h tt h' e in
      let (mounted, went) = proc_call_lem (mount_proc proc_path) h _ (returned one) in
      (
        mounted,
        subst (λ g. Hidden host proc_path telling_names g h') (sym went)
            (hide_names-Hidden proc_path telling_names _ h' e'),
      )
