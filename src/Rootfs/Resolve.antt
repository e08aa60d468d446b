-- ===== src/Rootfs/Resolve.antt =====
-- `resolve_abs` of linux/rootfs.rs against a machine that keeps a stack of names and so has no way
-- to leave the root.
use sunwalker_box.Common.{
  ℕ, zero, suc, ◌-◌, ◌<◌, ◌≡◌, refl, sym, ap, ◌∙◌, Option, none, some, List, [], ◌∷◌, ◌++◌,
  append-nil, append_assoc, length, length-append, take, take-length-append, arith, le→ltb, lt→ltb,
}
use sunwalker_box.Common.Exec.{Result, ok, err, and_then, io}
use sunwalker_box.Rootfs.{
  slash, Component, root_dir, cur_dir, parent_dir, normal, components, rposition, eloop,
  truncate_at, follow_link, step_component, walk, resolve_level, resolve_abs,
}
use sunwalker_box.Rootfs.Names.{has_slash, IsSlashFree, AllNames, CleanComponents, components-Clean}

-- A stack of names, the innermost first, as a path.
unfoldable pub render : List (List ℕ) → List ℕ
render [] = []
render (p ∷ ps) = render ps ++ slash ∷ p

rposition_name : (p : List ℕ) → IsSlashFree p → rposition p ≡ none
unfolding rposition has_slash
rposition_name [] h = refl
rposition_name (c ∷ cs) h = rw (rposition_name cs (ground arith), rposition) (ground arith)

rposition-append : (xs p : List ℕ) → IsSlashFree p → rposition (xs ++ slash ∷ p) ≡ some (length xs)
unfolding rposition
rposition-append [] p h = rw (rposition_name p h, rposition) refl
rposition-append (c ∷ cs) p h = rw (rposition-append cs p h, rposition) refl

pop : List (List ℕ) → List (List ℕ)
pop [] = []
pop (p ∷ ps) = ps

-- The machine: `link` is the target where a symbolic link stands at the top of the stack.
module _ (link : List (List ℕ) → Option (List ℕ)) where
  abbrev follow :
      (List ℕ → List (List ℕ) → Option (List (List ℕ)))
      → List (List ℕ)
      → List ℕ
      → Option (List ℕ)
      → Option (List (List ℕ))
  follow resolve stack p none = some (p ∷ stack)
  follow resolve stack p (some target) = resolve target stack

  unfoldable pub stack_step :
      (List ℕ → List (List ℕ) → Option (List (List ℕ)))
      → List (List ℕ)
      → Component
      → Option (List (List ℕ))
  unfolding pop
  stack_step resolve stack root_dir = some []
  stack_step resolve stack cur_dir = some stack
  stack_step resolve stack parent_dir = some (pop stack)
  stack_step resolve stack (normal p) = follow resolve stack p (link (p ∷ stack))

  unfoldable pub stack_walk :
      (List ℕ → List (List ℕ) → Option (List (List ℕ)))
      → List Component
      → List (List ℕ)
      → Option (List (List ℕ))
  unfolding stack_step
  stack_walk resolve [] stack = some stack
  stack_walk resolve (c ∷ cs) stack = elim (stack_step resolve stack c) [
    | none ↦ none
    | some stack' ↦ stack_walk resolve cs stack'
  ]

  unfoldable pub stack_level : ℕ → List ℕ → List (List ℕ) → Option (List (List ℕ))
  unfolding stack_walk
  stack_level zero path stack = none
  stack_level (suc levels) path stack = stack_walk (stack_level levels) (components path) stack

module _ (read_link : List ℕ → Option (List ℕ)) (root : List ℕ) where
  abbrev pub below : List (List ℕ) → List ℕ
  below stack = root ++ render stack

  abbrev pub link_at : List (List ℕ) → Option (List ℕ)
  link_at stack = read_link (below stack)

  -- The code answers what the machine does: the path of the stack, or that there are too many links.
  abbrev pub Agrees : Result (List ℕ) → Option (List (List ℕ)) → Type 0
  Agrees r none = r ≡ err (io eloop)
  Agrees r (some stack) = (r ≡ ok (below stack)) × AllNames stack

  module _ (resolve : List ℕ → List ℕ → Result (List ℕ))
      (resolve' : List ℕ → List (List ℕ) → Option (List (List ℕ)))
      (agree : (path : List ℕ) (stack : List (List ℕ))
        → AllNames stack
        → Agrees (resolve path (below stack)) (resolve' path stack)) where
    extended : (stack : List (List ℕ)) (p : List ℕ) → below stack ++ slash ∷ p ≡ below (p ∷ stack)
    unfolding render
    extended stack p = append_assoc root (render stack) (slash ∷ p)

    step_parent :
        (stack : List (List ℕ))
        → AllNames stack
        → Agrees
            (step_component read_link root resolve (below stack) parent_dir)
            (stack_step link_at resolve' stack parent_dir)
    unfolding step_component stack_step render pop
    step_parent [] h = (
      rw (le→ltb (length root) (length (root ++ [])) (omega (arith, length-append root []))) refl,
      tt,
    )
    step_parent (p ∷ ps) (h, hs) =
        let up = extended ps p in
        let longer : length root < length (below (p ∷ ps)) = omega (
          arith,
          length-append root (render ps ++ slash ∷ p),
          length-append (render ps) (slash ∷ p),
        ) in
        (
          rw (lt→ltb (length root) (length (below (p ∷ ps))) longer) (
              ap (truncate_at (below (p ∷ ps)))
                (ap rposition (sym up) ∙ rposition-append (below ps) p h.slash_free)
              ∙ ap ok (
                  ap (take (length (below ps))) (sym up)
                  ∙ take-length-append (below ps) (slash ∷ p))),
          hs,
        )

    follow-Agrees :
        (stack : List (List ℕ)) (p : List ℕ) (target : Option (List ℕ))
        → AllNames (p ∷ stack)
        → Agrees
            (follow_link read_link root resolve (below stack) (below (p ∷ stack)) target)
            (follow link_at resolve' stack p target)
    follow-Agrees stack p none h = (refl, h)
    follow-Agrees stack p (some target) (h, hs) =
        rw
          (ap (take (length (below stack))) (sym (extended stack p))
            ∙ take-length-append (below stack) (slash ∷ p))
          (agree target stack hs)

    step_normal :
        (stack : List (List ℕ)) (p : List ℕ)
        → AllNames (p ∷ stack)
        → Agrees
            (step_component read_link root resolve (below stack) (normal p))
            (stack_step link_at resolve' stack (normal p))
    unfolding step_component stack_step
    step_normal stack p h = rw (extended stack p) (follow-Agrees stack p (link_at (p ∷ stack)) h)

    step-Agrees :
        (stack : List (List ℕ)) (c : Component)
        → AllNames stack
        → CleanComponents (c ∷ [])
        → Agrees
            (step_component read_link root resolve (below stack) c)
            (stack_step link_at resolve' stack c)
    step-Agrees stack parent_dir h hc = step_parent stack h
    step-Agrees stack (normal p) h (hp, _) = step_normal stack p (hp, h)
    step-Agrees stack root_dir h hc =
        unfold step_component stack_step render in
        (ap ok (take-length-append root (render stack) ∙ sym (append-nil root)), tt)
    step-Agrees stack cur_dir h hc = unfold step_component stack_step in (refl, h)

    clean_head :
        (c : Component) (cs : List Component)
        → CleanComponents (c ∷ cs)
        → CleanComponents (c ∷ []) × CleanComponents cs
    clean_head (normal p) cs (h, hs) = ((h, tt), hs)
    clean_head root_dir cs h = (tt, h)
    clean_head cur_dir cs h = (tt, h)
    clean_head parent_dir cs h = (tt, h)

    then_walk :
        (r : Result (List ℕ)) (o : Option (List (List ℕ))) (cs : List Component)
        → Agrees r o
        → ((stack : List (List ℕ))
            → AllNames stack
            → Agrees
                (walk read_link root resolve cs (below stack))
                (stack_walk link_at resolve' cs stack))
        → Agrees
            (and_then r (walk read_link root resolve cs))
            (elim o [ none ↦ none | some stack' ↦ stack_walk link_at resolve' cs stack' ])
    then_walk r none cs e go = rw e refl
    then_walk r (some stack) cs (e, h) go = rw e (go stack h)

    walk-Agrees :
        (cs : List Component) (stack : List (List ℕ))
        → CleanComponents cs
        → AllNames stack
        → Agrees
            (walk read_link root resolve cs (below stack))
            (stack_walk link_at resolve' cs stack)
    unfolding walk stack_walk
    walk-Agrees [] stack hc h = (refl, h)
    walk-Agrees (c ∷ cs) stack hc h =
        let (head, rest) = clean_head c cs hc in
        then_walk _ _ cs (step-Agrees stack c h head) (λ stack' h'. walk-Agrees cs stack' rest h')

  resolve_level-Agrees :
      (levels : ℕ) (path : List ℕ) (stack : List (List ℕ))
      → AllNames stack
      → Agrees
          (resolve_level read_link root levels path (below stack))
          (stack_level link_at levels path stack)
  unfolding resolve_level stack_level
  resolve_level-Agrees zero path stack h = refl
  resolve_level-Agrees (suc levels) path stack h =
      walk-Agrees (resolve_level read_link root levels) (stack_level link_at levels)
        (resolve_level-Agrees levels) (components path) stack (components-Clean path) h

  -- Whatever the links say, `resolve_abs` from a path below the root does what the machine does with
  -- the links that are left: it ends, does not panic, and answers a path below the root with names
  -- that hold no slash, or FilesystemLoop.
  pub resolve_abs-Agrees :
      (path : List ℕ) (stack : List (List ℕ)) (link_level : ℕ)
      → AllNames stack
      → Agrees
          (resolve_abs read_link root path (below stack) link_level)
          (stack_level link_at (256 - link_level) path stack)
  unfolding resolve_abs
  resolve_abs-Agrees path stack link_level h = resolve_level-Agrees (256 - link_level) path stack h
