-- ===== src/SysvIpc/Removed.antt =====
-- What linux/ipc.rs has removed when it returns.
use mathlib.Core.Path.{subst}
use sunwalker_box.Cgroups.{split_ascii_whitespace, parse_number, parse_line}
use Prim.Native.String.{String}
use sunwalker_box.Common.{
  refl, ◌^◌, Option, some, ltb, Bool-cases, inl, inr, ℕ, ◌≡◌, sym, ap, none, List, [], ◌∷◌,
}
use sunwalker_box.Common.Exec.{
  Result, ok, err, and_then, skip, bind_returned, granted_kept, granted-none,
}
use sunwalker_box.Tracing.{IpcKind, sem, msg, shm}
use sunwalker_box.SysvIpc.{
  list_queues, remove_queue, list_objects, remove_object, IpcHistory, IpcNamespace, as_c_int,
  parse_ids, skip_header, remove_one, remove_ids, list_ids, reset_sysv_set, remove_queue_file,
  remove_queues, list_queue_files, reset,
}

returned : {r : Result (Unit {0}) × IpcHistory} {u : Unit {0}} → r.0 ≡ ok u → r ≡ (ok tt, r.1)
returned {r} h = ap (λ o. (o, r.1)) h

-- The second word of a row is the id.
abbrev pub IsRow : List ℕ → ℕ → Type 0
IsRow line id =
    (key text : List ℕ) × (others : List (List ℕ)) × (split_ascii_whitespace line
      ≡ key ∷ text ∷ others)
    × (parse_number text ≡ some id)

abbrev pub Rows : List (List ℕ) → List ℕ → Type 0
Rows [] [] = Unit {0}
Rows (line ∷ lines) (id ∷ ids) = IsRow line id × Rows lines ids
Rows _ _ = ⊥

-- A header, and a row for each id.
abbrev pub IsTable : List (List ℕ) → List ℕ → Type 0
IsTable [] ids = ids ≡ []
IsTable (header ∷ lines) ids = Rows lines ids

and_then_returned :
    {A B : Type 0} (r : Result A) (f : A → Result B) (b : B)
    → and_then r f ≡ ok b
    → (a : A) × (r ≡ ok a) × (f a ≡ ok b)
and_then_returned (ok a) f b e = (a, refl, e)
and_then_returned (err x) f b e = absurd (cc)

parse_line-IsRow : (line : List ℕ) (id : ℕ) → parse_line line ≡ ok id → IsRow line id
unfolding parse_line
parse_line-IsRow line id e = by_words (split_ascii_whitespace line) refl
  where
    by_number :
        (key text : List ℕ) (others : List (List ℕ)) (o : Option ℕ)
        → split_ascii_whitespace line ≡ key ∷ text ∷ others
        → parse_number text ≡ o
        → IsRow line id
    by_number key text others none w p = let e' = rw (w, p) at e in absurd (cc)
    by_number key text others (some n) w p = let e' = rw (w, p) at e in (key, text, others, w, cc)

    by_words : (words : List (List ℕ)) → split_ascii_whitespace line ≡ words → IsRow line id
    by_words [] w = let e' = rw w at e in absurd (cc)
    by_words (key ∷ []) w = let e' = rw w at e in absurd (cc)
    by_words (key ∷ text ∷ others) w = by_number key text others (parse_number text) w refl

as_c_int_same : (n id : ℕ) → as_c_int n ≡ ok id → n ≡ id
as_c_int_same n id e = elim (Bool-cases (ltb n (2 ^ 31))) [
  | inl fits ↦ let e' = rw fits at e in cc
  | inr large ↦ let e' = rw large at e in absurd (cc)
]

parse_ids-Rows : (lines : List (List ℕ)) (ids : List ℕ) → parse_ids lines ≡ ok ids → Rows lines ids
unfolding parse_ids
parse_ids-Rows [] [] e = tt
parse_ids-Rows [] (id ∷ ids) e = absurd (cc)
parse_ids-Rows (line ∷ lines) ids e =
    let (n, row, e1) = and_then_returned _ _ ids e in
    let (id, same, e2) = and_then_returned _ _ ids e1 in
    let (ids', rows, e3) = and_then_returned _ _ ids e2 in
    let whole : id ∷ ids' ≡ ids = cc in
    subst (Rows (line ∷ lines)) whole (
      subst (IsRow line) (as_c_int_same n id same) (parse_line-IsRow line n row),
      parse_ids-Rows lines ids' rows,
    )

parse_ids-IsTable :
    (lines : List (List ℕ)) (ids : List ℕ)
    → parse_ids (skip_header lines) ≡ ok ids
    → IsTable lines ids
unfolding parse_ids
parse_ids-IsTable [] ids e = cc
parse_ids-IsTable (header ∷ lines) ids e = parse_ids-Rows lines ids e

module _ (ns : IpcNamespace) where
  -- What the kernel lists is a table of these ids.
  abbrev pub Lists : IpcKind → IpcHistory → List ℕ → Type 0
  Lists kind h ids =
      (lines : List (List ℕ)) × (ns.objects_reply h kind ≡ ok lines) × IsTable lines ids

  -- From the one history to the other these objects were removed, in their order and each with success.
  abbrev pub ObjectsRemoved : IpcKind → List ℕ → IpcHistory → IpcHistory → Type 0
  ObjectsRemoved kind [] h h' = h' ≡ h
  ObjectsRemoved kind (id ∷ ids) h h' =
      (ns.remove_object_reply h kind id ≡ none)
      × ObjectsRemoved kind ids (remove_object kind id ∷ h) h'

  abbrev pub QueuesRemoved : List String → IpcHistory → IpcHistory → Type 0
  QueuesRemoved [] h h' = h' ≡ h
  QueuesRemoved (name ∷ names) h h' =
      (ns.remove_queue_reply h name ≡ none) × QueuesRemoved names (remove_queue name ∷ h) h'

  remove_ids-ObjectsRemoved :
      (kind : IpcKind) (ids : List ℕ) (h h' : IpcHistory)
      → remove_ids ns kind ids h ≡ (ok tt, h')
      → ObjectsRemoved kind ids h h'
  unfolding remove_ids remove_one
  remove_ids-ObjectsRemoved kind [] h h' e = unfold skip in ap (λ r. r.1) (sym e)
  remove_ids-ObjectsRemoved kind (id ∷ ids) h h' e =
      let (_, one, e') = bind_returned _ _ h tt h' e in
      (
        granted-none (ns.remove_object_reply h kind id) _ tt one,
        subst (λ g. ObjectsRemoved kind ids g h')
            (granted_kept (ns.remove_object_reply h kind id) (remove_object kind id ∷ h))
            (remove_ids-ObjectsRemoved kind ids (remove_one ns kind id h).1 h' e'),
      )

  remove_queues-QueuesRemoved :
      (names : List String) (h h' : IpcHistory)
      → remove_queues ns names h ≡ (ok tt, h')
      → QueuesRemoved names h h'
  unfolding remove_queues remove_queue_file
  remove_queues-QueuesRemoved [] h h' e = unfold skip in ap (λ r. r.1) (sym e)
  remove_queues-QueuesRemoved (name ∷ names) h h' e =
      let (_, one, e') = bind_returned _ _ h tt h' e in
      (
        granted-none (ns.remove_queue_reply h name) _ tt one,
        subst (λ g. QueuesRemoved names g h')
            (granted_kept (ns.remove_queue_reply h name) (remove_queue name ∷ h))
            (remove_queues-QueuesRemoved names (remove_queue_file ns name h).1 h' e'),
      )

  reset_set_lem :
      (kind : IpcKind) (h h' : IpcHistory)
      → reset_sysv_set ns kind h ≡ (ok tt, h')
      → (ids : List ℕ) × Lists kind h ids × ObjectsRemoved kind ids (list_objects kind ∷ h) h'
  unfolding reset_sysv_set
  reset_set_lem kind h h' e =
      let (ids, found, e') = bind_returned _ _ h tt h' e in
      (
        ids,
        (unfold list_ids in
            let (lines, answered, parsed) = and_then_returned _ _ ids found in
            (lines, answered, parse_ids-IsTable lines ids parsed)),
        (unfold list_ids in remove_ids-ObjectsRemoved kind ids _ h' e'),
      )

  -- Where `reset` returns, each message queue, semaphore set and memory segment that the kernel listed was
  -- removed by a call that succeeded, each kind after its listing and in its order, and nothing else. The
  -- kernel lists a header and a line for each object, the second word of which is its id.
  pub reset_lem :
      (h h' : IpcHistory)
      → reset ns h ≡ (ok tt, h')
      → (names : List String) × (msgs sems shms : List ℕ) × (h1 h2 h3 : IpcHistory)
        × (ns.queues_reply h ≡ ok names)
        × QueuesRemoved names (list_queues ∷ h) h1
        × Lists msg h1 msgs
        × ObjectsRemoved msg msgs (list_objects msg ∷ h1) h2
        × Lists sem h2 sems
        × ObjectsRemoved sem sems (list_objects sem ∷ h2) h3
        × Lists shm h3 shms
        × ObjectsRemoved shm shms (list_objects shm ∷ h3) h'
  unfolding reset
  reset_lem h h' e =
      let (names, found, e1) = bind_returned _ _ h tt h' e in
      let (_, q, e2) = bind_returned _ _ _ tt h' e1 in
      let (_, m, e3) = bind_returned _ _ _ tt h' e2 in
      let (_, s, e4) = bind_returned _ _ _ tt h' e3 in
      let (msgs, found_msgs, gone_msgs) = reset_set_lem msg _ _ (returned m) in
      let (sems, found_sems, gone_sems) = reset_set_lem sem _ _ (returned s) in
      let (shms, found_shms, gone_shms) = reset_set_lem shm _ h' e4 in
      (
        names,
        msgs,
        sems,
        shms,
        _,
        _,
        _,
        (unfold list_queue_files in found),
        (unfold list_queue_files in remove_queues-QueuesRemoved names _ _ (returned q)),
        found_msgs,
        gone_msgs,
        found_sems,
        gone_sems,
        found_shms,
        gone_shms,
      )
