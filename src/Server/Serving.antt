-- ===== src/Server/Serving.antt =====
-- What the public surface gives away: only plain paths below a site.
use crate_html.Prelude.{
  ◌≡◌, refl, true, false, List, [], ◌∷◌, Text, text_eq, ◌==◌, is_empty, trim_prefix, cut_prefix,
  if◌then◌else◌, Bool-cases, inl, inr, All, has_byte,
}
use crate_html.TarPath.{clean, clean_from, split_slash, step_up, is_skipped, dotdot, to_text}
use crate_html.TarPath.Safety.{AllPlain, split_slash-no_slash}
use crate_html.Server.Public.{with_index, file_path}

step_up-AllPlain : (out : List Text) → AllPlain out → AllPlain (step_up true out)
unfolding step_up
step_up-AllPlain [] h = tt
step_up-AllPlain (p ∷ out) h = rw h.0.not_up h.1

-- Below the root, Clean writes plain components only.
clean_from-AllPlain :
    (out ps : List Text)
    → AllPlain out
    → All (λ p. has_byte b'/' p ≡ false) ps
    → AllPlain (clean_from true out ps)
unfolding clean_from
clean_from-AllPlain out [] h s = h
clean_from-AllPlain out (p ∷ ps) h s = elim (Bool-cases (is_skipped p)) [
  | inl skip ↦ rw skip (clean_from-AllPlain out ps h s.1)
  | inr take ↦ elim (Bool-cases (p == dotdot)) [
    | inl up ↦
        rw (take, up) (clean_from-AllPlain (step_up true out) ps (step_up-AllPlain out h) s.1)
    | inr down ↦
        rw (take, down)
          (clean_from-AllPlain (p ∷ out) ps
            (record { kept = take; not_up = down; no_slash = s.0 }, h) s.1)
  ]
]

-- Whatever stands behind the name of a site in a request, the path that is served below the site is
-- empty, or made of plain components: none is empty, ".", ".." or holds a slash.
pub file_path-AllPlain :
    (rest : Text)
    → (parts : List Text) × AllPlain parts
      × (file_path rest
          ≡ (if is_empty parts then [] else to_text (record { rooted = false; parts = parts })))
unfolding file_path trim_prefix cut_prefix clean to_text
file_path-AllPlain rest =
    let name = b'/' ∷ with_index rest in
    let parts = clean_from true [] (split_slash name) in
    (parts, clean_from-AllPlain [] (split_slash name) tt (split_slash-no_slash name), go parts)
  where
    go :
        (ps : List Text)
        → trim_prefix (to_text (record { rooted = true; parts = ps })) (b'/' ∷ [])
          ≡ (if is_empty ps then [] else to_text (record { rooted = false; parts = ps }))
    go [] = refl
    go (p ∷ ps) = refl
