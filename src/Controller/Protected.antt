-- ===== src/Controller/Protected.antt =====
-- What `ensure_allowed_to_modify` of linux/controller.rs protects, for the paths that
-- `resolve_abs_box_root` answers.
use sunwalker_box.Common.{
  ℕ, ◌+◌, ◌≡◌, refl, sym, ap, ◌∙◌, ◌↔◌, Option, none, some, List, [], ◌∷◌, ◌++◌, append_assoc,
  append-nil, length, length-append, arith,
}
use sunwalker_box.Common.Exec.{Result, ok}
use sunwalker_box.Rootfs.{
  slash, normal, parts, split_slash, components, newroot, space, resolve_abs_box_root,
}
use sunwalker_box.Rootfs.Names.{space-AllNames, AllNames, parts-split_slash}
use sunwalker_box.Rootfs.Resolve.{render, Agrees, resolve_abs-Agrees}
use sunwalker_box.Controller.{ensure_allowed_to_modify}

count_parts :
    (r : List ℕ) (stack : List (List ℕ))
    → AllNames stack
    → length (parts (split_slash (r ++ render stack)))
      ≡ length (parts (split_slash r)) + length stack
unfolding render
count_parts r [] h = ap (λ l. length (parts (split_slash l))) (append-nil r) ∙ omega arith
count_parts r (p ∷ ps) (h, hs) =
    ap (λ l. length (parts (split_slash l))) (sym (append_assoc r (render ps) (slash ∷ p)))
    ∙ ap length (parts-split_slash (r ++ render ps) p h)
    ∙ omega (
      arith,
      length-append (parts (split_slash (r ++ render ps))) (normal p ∷ []),
      count_parts r ps hs,
    )

newroot_name : List ℕ
newroot_name = 110 ∷ 101 ∷ 119 ∷ 114 ∷ 111 ∷ 111 ∷ 116 ∷ []

count_below :
    (stack : List (List ℕ))
    → AllNames stack
    → length (components (newroot ++ render stack)) ≡ 2 + length stack
unfolding components newroot_name
count_below stack h =
    let one : length (parts (split_slash newroot_name)) ≡ 1 = unfold parts split_slash in refl in
    omega (arith, count_parts newroot_name stack h, one)

module _ (read_link : List ℕ → Option (List ℕ)) where
  agreed :
      (r : Result (List ℕ)) (o : Option (List (List ℕ))) (acc : List ℕ)
      → Agrees read_link newroot r o
      → r ≡ ok acc
      → (stack : List (List ℕ)) × AllNames stack × (acc ≡ newroot ++ render stack)
  agreed r none acc e h = absurd (cc)
  agreed r (some stack) acc (e, names) h = (stack, names, cc)

  -- A path from outside that resolves, by whichever links, is below `/newroot`, and it is refused for
  -- a change exactly when it is a direct child of it.
  pub ensure_allowed_to_modify-resolve_abs_box_root :
      (path acc : List ℕ)
      → resolve_abs_box_root read_link path ≡ ok acc
      → (stack : List (List ℕ)) × AllNames stack
        × (acc ≡ newroot ++ render stack)
        × ((ensure_allowed_to_modify acc ≡ ok tt) ↔ (¬ (length stack ≡ 1)))
  unfolding resolve_abs_box_root render ensure_allowed_to_modify
  ensure_allowed_to_modify-resolve_abs_box_root path acc h =
      let (stack, names, e) =
        agreed _ _ acc (resolve_abs-Agrees read_link newroot path (space ∷ []) 0 space-AllNames)
          h in
      (
        stack,
        names,
        e,
        (
          (λ ok_. ground (arith, count_below stack names)),
          λ n. ground (arith, count_below stack names),
        ),
      )
