-- ===== src/Rootfs/Names.antt =====
-- What `components` calls a name: not empty, no slash in it, and no dots alone.
use sunwalker_box.Common.{
  ℕ, ◌≡◌, refl, ap, ◌∙◌, arith, ◌++◌, Bool, true, false, ◌||◌, List, [], ◌∷◌, ◌==◌, if◌then◌else◌,
  Bool-cases, inl, inr,
}
use sunwalker_box.Rootfs.{
  slash, dot, space, add_to_first, Component, root_dir, cur_dir, normal, split_slash, eq_bytes,
  add_part, parts, leading, components,
}

unfoldable pub has_slash : List ℕ → Bool
has_slash [] = false
has_slash (c ∷ cs) = c == slash || has_slash cs

abbrev pub IsSlashFree : List ℕ → Type 0
IsSlashFree p = has_slash p ≡ false

abbrev pub AllSlashFree : List (List ℕ) → Type 0
AllSlashFree [] = Unit
AllSlashFree (p ∷ ps) = IsSlashFree p × AllSlashFree ps

pub record IsName (p : List ℕ) : Type 0 where
  pub slash_free : IsSlashFree p
  pub nonempty : eq_bytes p [] ≡ false
  pub not_dot : eq_bytes p (dot ∷ []) ≡ false
  pub not_dots : eq_bytes p (dot ∷ dot ∷ []) ≡ false

abbrev pub AllNames : List (List ℕ) → Type 0
AllNames [] = Unit
AllNames (p ∷ ps) = IsName p × AllNames ps

abbrev pub CleanComponents : List Component → Type 0
CleanComponents [] = Unit
CleanComponents (normal p ∷ cs) = IsName p × CleanComponents cs
CleanComponents (_ ∷ cs) = CleanComponents cs

add_to_first-AllSlashFree :
    (c : ℕ) (ps : List (List ℕ))
    → (c == slash) ≡ false
    → AllSlashFree ps
    → AllSlashFree (add_to_first c ps)
unfolding has_slash
add_to_first-AllSlashFree c [] e h = (rw e refl, tt)
add_to_first-AllSlashFree c (p ∷ ps) e (h, hs) = (rw (e, h) refl, hs)

split_slash-AllSlashFree : (cs : List ℕ) → AllSlashFree (split_slash cs)
unfolding split_slash has_slash
split_slash-AllSlashFree [] = (refl, tt)
split_slash-AllSlashFree (c ∷ cs) = elim (Bool-cases (c == slash)) [
  | inl here ↦ rw here (refl, split_slash-AllSlashFree cs)
  | inr e ↦ rw e (add_to_first-AllSlashFree c (split_slash cs) e (split_slash-AllSlashFree cs))
]

CleanComponents-if :
    (b : Bool) (cs ds : List Component)
    → CleanComponents cs
    → CleanComponents ds
    → CleanComponents (if b then cs else ds)
CleanComponents-if true cs ds hc hd = hc
CleanComponents-if false cs ds hc hd = hd

add_part-Clean :
    (p : List ℕ) (cs : List Component)
    → IsSlashFree p
    → CleanComponents cs
    → CleanComponents (add_part p cs)
unfolding add_part
add_part-Clean p cs h hs = elim (Bool-cases (eq_bytes p [])) [
  | inl e ↦ rw e hs
  | inr e ↦ rw e (elim (Bool-cases (eq_bytes p (dot ∷ []))) [
    | inl e' ↦ rw e' hs
    | inr e' ↦ rw e' (elim (Bool-cases (eq_bytes p (dot ∷ dot ∷ []))) [
      | inl e'' ↦ rw e'' hs
      | inr e'' ↦ rw e'' (record { slash_free = h; nonempty = e; not_dot = e'; not_dots = e'' }, hs)
    ])
  ])
]

parts-Clean : (ps : List (List ℕ)) → AllSlashFree ps → CleanComponents (parts ps)
unfolding parts
parts-Clean [] h = tt
parts-Clean (p ∷ ps) (h, hs) = add_part-Clean p (parts ps) h (parts-Clean ps hs)

leading-Clean : (ps : List (List ℕ)) → AllSlashFree ps → CleanComponents (leading ps)
unfolding leading
leading-Clean [] h = tt
leading-Clean (p ∷ ps) (h, hs) =
    CleanComponents-if (eq_bytes p (dot ∷ [])) (cur_dir ∷ parts ps) (parts (p ∷ ps))
      (parts-Clean ps hs) (parts-Clean (p ∷ ps) (h, hs))

pub components-Clean : (path : List ℕ) → CleanComponents (components path)
unfolding components
components-Clean [] = tt
components-Clean (c ∷ cs) =
    CleanComponents-if (c == slash) (root_dir ∷ parts (split_slash cs))
      (leading (split_slash (c ∷ cs))) (parts-Clean (split_slash cs) (split_slash-AllSlashFree cs))
      (leading-Clean (split_slash (c ∷ cs)) (split_slash-AllSlashFree (c ∷ cs)))

-- The parts of a path that goes on by a name.
split_slash_free : (p : List ℕ) → IsSlashFree p → split_slash p ≡ p ∷ []
unfolding split_slash has_slash
split_slash_free [] h = refl
split_slash_free (c ∷ cs) h = rw (split_slash_free cs (ground arith), split_slash) (ground arith)

split_slash_nonempty :
    (cs : List ℕ) → (q : List ℕ) × (qs : List (List ℕ)) × (split_slash cs ≡ q ∷ qs)
unfolding split_slash
split_slash_nonempty [] = ([], [], refl)
split_slash_nonempty (c ∷ cs) =
    let (q, qs, e) = split_slash_nonempty cs in
    elim (Bool-cases (c == slash)) [
      | inl here ↦ ([], split_slash cs, rw here refl)
      | inr e' ↦ (c ∷ q, qs, rw e' (ap (add_to_first c) e))
    ]

split_slash-append :
    (cs p : List ℕ) → IsSlashFree p → split_slash (cs ++ slash ∷ p) ≡ split_slash cs ++ (p ∷ [])
unfolding split_slash
split_slash-append [] p h = ap (λ ps. [] ∷ ps) (split_slash_free p h)
split_slash-append (c ∷ cs) p h =
    let (q, qs, e) = split_slash_nonempty cs in
    rw (split_slash-append cs p h, split_slash)
      (rw (e, split_slash)
        (elim (Bool-cases (c == slash)) [ inl here ↦ rw here refl | inr e' ↦ rw e' refl ]))

add_part-append :
    (p : List ℕ) (cs ds : List Component) → add_part p (cs ++ ds) ≡ add_part p cs ++ ds
unfolding add_part
add_part-append p cs ds = elim (Bool-cases (eq_bytes p [])) [
  | inl e ↦ rw e refl
  | inr e ↦ rw e (elim (Bool-cases (eq_bytes p (dot ∷ []))) [
    | inl e' ↦ rw e' refl
    | inr e' ↦ rw e' (elim (Bool-cases (eq_bytes p (dot ∷ dot ∷ []))) [
      | inl e'' ↦ rw e'' refl
      | inr e'' ↦ rw e'' refl
    ])
  ])
]

add_part_name : (p : List ℕ) (cs : List Component) → IsName p → add_part p cs ≡ normal p ∷ cs
unfolding add_part
add_part_name p cs h = rw h.nonempty (rw h.not_dot (rw h.not_dots refl))

parts-append :
    (ps : List (List ℕ)) (p : List ℕ)
    → IsName p
    → parts (ps ++ (p ∷ [])) ≡ parts ps ++ (normal p ∷ [])
unfolding parts
parts-append [] p h = add_part_name p [] h
parts-append (q ∷ qs) p h =
    ap (add_part q) (parts-append qs p h) ∙ add_part-append q (parts qs) (normal p ∷ [])

pub parts-split_slash :
    (cs p : List ℕ)
    → IsName p
    → parts (split_slash (cs ++ slash ∷ p)) ≡ parts (split_slash cs) ++ (normal p ∷ [])
parts-split_slash cs p h =
    ap parts (split_slash-append cs p h.slash_free) ∙ parts-append (split_slash cs) p h

pub space-AllNames : AllNames (space ∷ [])
space-AllNames = (
  record {
    slash_free = unfold has_slash in refl;
    nonempty = unfold eq_bytes in refl;
    not_dot = unfold eq_bytes in refl;
    not_dots = unfold eq_bytes in refl;
  },
  tt,
)
