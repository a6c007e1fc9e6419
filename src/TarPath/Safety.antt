-- ===== src/TarPath/Safety.antt =====
-- Which archive names are let through, against a count of the depth that a walk along the name
-- reaches, and what the accepted paths look like.
use crate_html.Prelude.{
  ℕ, zero, suc, ◌≡◌, refl, sym, Bool, true, false, ◌&&◌, Option, none, some, List, [], ◌∷◌, Text,
  text_eq, ◌==◌, eqb, if◌then◌else◌, arith, All, Bool-cases, inl, inr, has_byte, length, not,
  is_some, eq_refl,
}
use mathlib.Core.Path.{subst, subst₂}
use crate_html.TarPath.{
  CleanPath, put_front, split_slash, dotdot, is_skipped, step_up, clean_from, is_rooted, clean,
  climbs, safe_tar_path,
}

-- One component of a walk, from a depth; `none` when it leaves the directory that it started in.
abbrev pub depth_after : ℕ → Text → Option ℕ
depth_after zero p = if is_skipped p then some zero else if p == dotdot then none else some 1
depth_after (suc d) p =
    if is_skipped p then some (suc d) else if p == dotdot then some d else some (suc (suc d))

-- The walk along all the components never leaves it.
abbrev pub stays_inside : ℕ → List Text → Bool
stays_inside depth [] = true
stays_inside depth (p ∷ ps) = elim (depth_after depth p) [
  | none ↦ false
  | some d ↦ stays_inside d ps
]

-- A component that names a file or a directory below.
pub record IsPlain (p : Text) : Type 0 where
  pub kept : is_skipped p ≡ false
  pub not_up : (p == dotdot) ≡ false
  pub no_slash : has_byte b'/' p ≡ false

climbs-cons : (p : Text) (out : List Text) → climbs out ≡ true → climbs (p ∷ out) ≡ true
climbs-cons p [] h = ground arith
climbs-cons p (q ∷ out) h = h

climbs-step_up : (out : List Text) → climbs out ≡ true → climbs (step_up false out) ≡ true
unfolding step_up
climbs-step_up [] h = ground arith
climbs-step_up (p ∷ []) h = ground arith
climbs-step_up (p ∷ q ∷ out) h = ground (arith, climbs-cons dotdot (p ∷ q ∷ out) h)

-- A path that has left the directory never comes back.
climbs-clean_from :
    (out ps : List Text) → climbs out ≡ true → climbs (clean_from false out ps) ≡ true
unfolding clean_from
climbs-clean_from out [] h = h
climbs-clean_from out (p ∷ ps) h = elim (Bool-cases (is_skipped p)) [
  | inl skip ↦ rw skip (climbs-clean_from out ps h)
  | inr take ↦ elim (Bool-cases (p == dotdot)) [
    | inl up ↦ rw (take, up) (climbs-clean_from (step_up false out) ps (climbs-step_up out h))
    | inr down ↦ rw (take, down) (climbs-clean_from (p ∷ out) ps (climbs-cons p out h))
  ]
]

abbrev pub AllPlain : List Text → Type 0
AllPlain = All IsPlain

climbs_plain : (out : List Text) → AllPlain out → climbs out ≡ false
climbs_plain [] h = refl
climbs_plain (p ∷ []) h = h.0.not_up
climbs_plain (p ∷ q ∷ out) h = climbs_plain (q ∷ out) h.1

depth_skip : (d : ℕ) (p : Text) → is_skipped p ≡ true → depth_after d p ≡ some d
depth_skip zero p h = ground arith
depth_skip (suc d) p h = ground arith

depth_down :
    (d : ℕ) (p : Text)
    → is_skipped p ≡ false
    → (p == dotdot) ≡ false
    → depth_after d p ≡ some (suc d)
depth_down zero p h k = ground arith
depth_down (suc d) p h k = ground arith

-- What has been written, and whether the walk stayed inside.
abbrev pub Walked : List Text → Bool → Type 0
Walked out inside = (inside ≡ true → AllPlain out) × (climbs out ≡ not inside)

-- One component: what Clean goes on with, and how deep the walk is then.
step :
    (out next ps : List Text) (p : Text) (d : ℕ)
    → clean_from false out (p ∷ ps) ≡ clean_from false next ps
    → depth_after (length out) p ≡ some d
    → Walked (clean_from false next ps) (stays_inside d ps)
    → Walked (clean_from false out (p ∷ ps)) (stays_inside (length out) (p ∷ ps))
step out next ps p d e k w = subst₂ Walked (sym e) (rw (k, stays_inside)) w

stays_inside-up :
    (p : Text) (ps : List Text)
    → is_skipped p ≡ false
    → (p == dotdot) ≡ true
    → stays_inside 0 (p ∷ ps) ≡ false
stays_inside-up p ps take up = rw (take, up, stays_inside)

Walked-up :
    (p : Text) (ps : List Text)
    → is_skipped p ≡ false
    → (p == dotdot) ≡ true
    → Walked (clean_from false [] (p ∷ ps)) (stays_inside 0 (p ∷ ps))
unfolding clean_from
Walked-up p ps take up =
    subst₂ Walked {x = clean_from false (dotdot ∷ []) ps} (rw (take, up))
      (sym (stays_inside-up p ps take up))
      (λ h. cc, climbs-clean_from (dotdot ∷ []) ps (eq_refl dotdot))

-- While the walk stays inside, what Clean writes is plain and as long as the walk is deep; it begins
-- with ".." as soon as the walk has left.
clean_from-Walked :
    (out ps : List Text)
    → AllPlain out
    → All (λ p. has_byte b'/' p ≡ false) ps
    → Walked (clean_from false out ps) (stays_inside (length out) ps)
unfolding clean_from
clean_from-Walked out [] h s = (λ _. h, climbs_plain out h)
clean_from-Walked [] (p ∷ ps) h s = elim (Bool-cases (is_skipped p)) [
  | inl skip ↦ step [] [] ps p 0 (rw skip) (depth_skip 0 p skip) (clean_from-Walked [] ps h s.1)
  | inr take ↦ elim (Bool-cases (p == dotdot)) [
    | inl up ↦ Walked-up p ps take up
    | inr down ↦ step [] (p ∷ []) ps p 1 (rw (take, down)) (depth_down 0 p take down) (
        clean_from-Walked (p ∷ []) ps (record { kept = take; not_up = down; no_slash = s.0 }, tt)
          s.1)
  ]
]
clean_from-Walked (q ∷ out) (p ∷ ps) h s = elim (Bool-cases (is_skipped p)) [
  | inl skip ↦
      step (q ∷ out) (q ∷ out) ps p (suc (length out)) (rw skip)
        (depth_skip (suc (length out)) p skip) (clean_from-Walked (q ∷ out) ps h s.1)
  | inr take ↦ elim (Bool-cases (p == dotdot)) [
    | inl up ↦
        step (q ∷ out) out ps p (length out) (rw (take, up, h.0.not_up)) (rw (take, up))
          (clean_from-Walked out ps h.1 s.1)
    | inr down ↦
        step (q ∷ out) (p ∷ q ∷ out) ps p (suc (suc (length out))) (rw (take, down))
          (depth_down (suc (length out)) p take down)
          (clean_from-Walked (p ∷ q ∷ out) ps
            (record { kept = take; not_up = down; no_slash = s.0 }, h) s.1)
  ]
]

put_front-no_slash :
    (c : ℕ) (ps : List Text)
    → eqb c b'/' ≡ false
    → All (λ p. has_byte b'/' p ≡ false) ps
    → All (λ p. has_byte b'/' p ≡ false) (put_front c ps)
unfolding put_front
put_front-no_slash c [] h k = (rw h, tt)
put_front-no_slash c (p ∷ ps) h k = (rw h k.0, k.1)

pub split_slash-no_slash : (s : Text) → All (λ p. has_byte b'/' p ≡ false) (split_slash s)
unfolding split_slash
split_slash-no_slash [] = (refl, tt)
split_slash-no_slash (c ∷ s) = elim (Bool-cases (eqb c b'/')) [
  | inl slash ↦ rw (slash, split_slash) (refl, split_slash-no_slash s)
  | inr other ↦
      rw (other, split_slash) (put_front-no_slash c (split_slash s) other (split_slash-no_slash s))
]

accepted :
    (name : Text) (p : CleanPath)
    → safe_tar_path name ≡ some p
    → (climbs (clean name).parts ≡ false) × ((clean name).rooted ≡ false) × (clean name ≡ p)
unfolding safe_tar_path
accepted name p h = ground arith

Walked-clean :
    (name : Text)
    → is_rooted name ≡ false
    → Walked (clean name).parts (stays_inside 0 (split_slash name))
unfolding clean
Walked-clean name h = rw h (clean_from-Walked [] (split_slash name) tt (split_slash-no_slash name))

-- A name is let through exactly when it is relative and no walk along its components leaves the
-- directory that it starts in.
safe_tar_path-stays_inside :
    (name : Text)
    → is_some (safe_tar_path name) ≡ (not (is_rooted name) && stays_inside 0 (split_slash name))
unfolding safe_tar_path
safe_tar_path-stays_inside name = elim (Bool-cases (is_rooted name)) [
  | inl rooted ↦ unfold clean in ground arith
  | inr relative ↦
      let w = Walked-clean name relative in
      let r : (clean name).rooted ≡ false = unfold clean in relative in ground (arith, w.1)
]

safe_tar_path-AllPlain :
    (name : Text) (p : CleanPath)
    → safe_tar_path name ≡ some p
    → (p.rooted ≡ false) × AllPlain p.parts
safe_tar_path-AllPlain name p h =
    let (down, relative, same) = accepted name p h in
    let w = Walked-clean name (unfold clean in relative) in
    subst (λ (c : CleanPath). (c.rooted ≡ false) × AllPlain c.parts) same
      (relative, w.0 (ground (arith, w.1)))

-- A name is let through exactly when it is relative and no walk along its components leaves the
-- directory that it starts in; the path is then relative and made of plain components: none is
-- empty, ".", ".." or holds a slash.
pub safe_tar_path_iff :
    (name : Text)
    → (is_some (safe_tar_path name) ≡ (not (is_rooted name) && stays_inside 0 (split_slash name)))
      × ((p : CleanPath) → safe_tar_path name ≡ some p → (p.rooted ≡ false) × AllPlain p.parts)
safe_tar_path_iff name = (safe_tar_path-stays_inside name, safe_tar_path-AllPlain name)
