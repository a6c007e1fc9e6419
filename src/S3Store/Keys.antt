-- ===== src/S3Store/Keys.antt =====
-- The keys of metadata and of archives are apart, so that writing one changes no other.
use crate_html.Prelude.{
  ◌≤◌, ◌≡◌, refl, sym, ap, ◌∙◌, true, false, [], ◌∷◌, ◌++◌, Text, text_eq, text_beq_iff, ◌==◌,
  codes, arith, Bool-cases, Option-cases, inl, inr, length, length-append, has_prefix, cut_prefix,
  cut_prefix-eq-some,
}
use crate_html.S3Store.{Settings, meta_key, version_key, site_prefix}

append_cancel : (p s t : Text) → p ++ s ≡ p ++ t → s ≡ t
append_cancel [] s t h = h
append_cancel (x ∷ p) s t h = append_cancel p s t (ground (arith, h))

append_assoc : (s t r : Text) → (s ++ t) ++ r ≡ s ++ (t ++ r)
append_assoc [] t r = refl
append_assoc (x ∷ s) t r = ap (◌∷◌ x) (append_assoc s t r)

-- No metadata object stands under the key of an archive.
pub version_key-meta_key :
    (c : Settings) (name version other : Text)
    → (version_key c name version == meta_key c other) ≡ false
version_key-meta_key c name version other =
    elim (Bool-cases (version_key c name version == meta_key c other)) [
      | inr apart ↦ apart
      | inl same ↦
          let e =
            append_cancel c.prefix
              (codes "sites/" ++ (name ++ (codes "/" ++ (version ++ codes ".tar"))))
              (codes "meta/" ++ (other ++ codes ".json"))
              ((text_beq_iff (version_key c name version) (meta_key c other)).0 same) in
          ground (arith, e)
    ]

append_cancel_right : (s r t : Text) → s ++ t ≡ r ++ t → s ≡ r
append_cancel_right [] [] t h = refl
append_cancel_right [] (y ∷ r) t h =
    let bad : 1 ≤ 0 = omega (arith, ap length h, length-append r t) in elim bad [ ]
append_cancel_right (x ∷ s) [] t h =
    let bad : 1 ≤ 0 = omega (arith, ap length h, length-append s t) in elim bad [ ]
append_cancel_right (x ∷ s) (y ∷ r) t h = ground (arith, h, append_cancel_right s r t)

-- Two versions of a site have two keys.
pub version_key-ne :
    (c : Settings) (name v w : Text)
    → (v == w) ≡ false
    → (version_key c name v == version_key c name w) ≡ false
version_key-ne c name v w n = elim (Bool-cases (version_key c name v == version_key c name w)) [
  | inr apart ↦ apart
  | inl same ↦
      let e =
        append_cancel c.prefix (codes "sites/" ++ (name ++ (codes "/" ++ (v ++ codes ".tar"))))
          (codes "sites/" ++ (name ++ (codes "/" ++ (w ++ codes ".tar"))))
          ((text_beq_iff (version_key c name v) (version_key c name w)).0 same) in
      let f =
        append_cancel name (codes "/" ++ (v ++ codes ".tar")) (codes "/" ++ (w ++ codes ".tar")) (
          append_cancel (codes "sites/") (name ++ (codes "/" ++ (v ++ codes ".tar")))
            (name ++ (codes "/" ++ (w ++ codes ".tar"))) e) in
      ground (
        arith,
        n,
        text_beq_iff v w,
        append_cancel_right v w (codes ".tar")
            (append_cancel (codes "/") (v ++ codes ".tar") (w ++ codes ".tar") f),
      )
]

-- Two sites have two metadata objects.
pub meta_key-ne :
    (c : Settings) (n m : Text) → (n == m) ≡ false → (meta_key c n == meta_key c m) ≡ false
meta_key-ne c n m h = elim (Bool-cases (meta_key c n == meta_key c m)) [
  | inr apart ↦ apart
  | inl same ↦
      let e =
        append_cancel c.prefix (codes "meta/" ++ (n ++ codes ".json"))
          (codes "meta/" ++ (m ++ codes ".json"))
          ((text_beq_iff (meta_key c n) (meta_key c m)).0 same) in
      ground (
        arith,
        h,
        text_beq_iff n m,
        append_cancel_right n m (codes ".json")
            (append_cancel (codes "meta/") (n ++ codes ".json") (m ++ codes ".json") e),
      )
]

-- What stands below the archives of a site is no metadata object.
pub site_prefix-meta_key :
    (c : Settings) (k name other : Text)
    → has_prefix k (site_prefix c name) ≡ true
    → (k == meta_key c other) ≡ false
unfolding has_prefix
site_prefix-meta_key c k name other h = elim (Bool-cases (k == meta_key c other)) [
  | inr apart ↦ apart
  | inl same ↦ elim (Option-cases (cut_prefix k (site_prefix c name))) [
    | inl miss ↦ ground (arith, miss)
    | inr (r, hit) ↦
        let e : (c.prefix ++ (codes "sites/" ++ (name ++ codes "/"))) ++ r ≡ meta_key c other =
          sym (cut_prefix-eq-some (site_prefix c name) k r hit)
          ∙ (text_beq_iff k (meta_key c other)).0 same in
        let f =
          append_cancel c.prefix ((codes "sites/" ++ (name ++ codes "/")) ++ r)
            (codes "meta/" ++ (other ++ codes ".json"))
            (sym (append_assoc c.prefix (codes "sites/" ++ (name ++ codes "/")) r) ∙ e) in
        ground (arith, f)
  ]
]

pub meta_key-version_key :
    (c : Settings) (other version name : Text)
    → (meta_key c other == version_key c name version) ≡ false
meta_key-version_key c other version name = ground (
  arith,
  version_key-meta_key c name version other,
  text_beq_iff (meta_key c other) (version_key c name version),
  text_beq_iff (version_key c name version) (meta_key c other),
)
