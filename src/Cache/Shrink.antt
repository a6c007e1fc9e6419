-- ===== src/Cache/Shrink.antt =====
-- The eviction loop of `put`: it ends within the budget, keeps a prefix of the list, and evicts no
-- more than it must.
use crate_html.Prelude.{
  ℕ, zero, suc, ◌≤◌, ◌<◌, ◌≡◌, ◌⊎◌, refl, sym, false, none, some, List, [], ◌∷◌, ◌==◌, length, take,
  length-take_le, take_of_length-le, Bool-cases, inl, inr, arith, ltb, ltb→lt, le→ltb_false,
  eq_refl, ◌∙◌, ap,
}
use mathlib.Core.Path.{subst}
use native.Mathlib.Decide.{dec_lt}
use crate_html.Cache.{key_eq, key_beq_iff, CacheEntry, Cache, unlink, back, evict, shrink}
use crate_html.Cache.Invariant.{find, Distinct, total, IsSound, evict-IsSound}

module _ {ℓ} {A : Type ℓ} where
  back-some :
      (e : CacheEntry A) (l : List (CacheEntry A)) → (f : CacheEntry A) × (back (e ∷ l) ≡ some f)
  unfolding back
  back-some e [] = (e, refl)
  back-some e (f ∷ l) = back-some f l

  find_ne :
      (e f : CacheEntry A) (l : List (CacheEntry A))
      → find f.key l ≡ some f
      → find e.key l ≡ none
      → (e.key == f.key) ≡ false
  find_ne e f l h k = elim (Bool-cases (e.key == f.key)) [
    | inl same ↦ cc (ap (λ j. find j l) ((key_beq_iff e.key f.key).0 same))
    | inr other ↦ other
  ]

  -- The last element is in the list, and unlinking it keeps all the others in order.
  pub back-unlink :
      (e : CacheEntry A) (l : List (CacheEntry A)) (f : CacheEntry A)
      → Distinct (e ∷ l)
      → back (e ∷ l) ≡ some f
      → (find f.key (e ∷ l) ≡ some f) × (unlink f.key (e ∷ l) ≡ take (length l) (e ∷ l))
  unfolding back find unlink
  back-unlink e [] f d h = (ground (arith, eq_refl e.key), ground (arith, eq_refl e.key))
  back-unlink e (g ∷ l) f d h =
      let (found, cut) = back-unlink g l f d.1 h in
      let other = find_ne e f (g ∷ l) found d.0 in (rw other found, rw other (ap (◌∷◌ e) cut))

  take-take_le : (n m : ℕ) (l : List (CacheEntry A)) → n ≤ m → take n (take m l) ≡ take n l
  take-take_le zero m l h = refl
  take-take_le (suc n) zero l h = elim h [ ]
  take-take_le (suc n) (suc m) [] h = refl
  take-take_le (suc n) (suc m) (x ∷ l) h = ap (◌∷◌ x) (take-take_le n m l (omega arith))

  take_all : (l : List (CacheEntry A)) → take (length l) l ≡ l
  take_all l = take_of_length-le (length l) l (omega arith)

  -- `n` elements are kept, `budget` bounds their sum, and one more would not have fitted.
  pub record IsCut (budget n : ℕ) (l l' : List (CacheEntry A)) : Type ℓ where
    pub prefix : l' ≡ take n l
    pub count : n ≤ length l
    pub fits : total (take n l) ≤ budget
    pub tight : (n ≡ length l) ⊎ (budget < total (take (suc n) l))

  -- Dropping the last element first changes nothing of a cut that drops it anyway.
  IsCut-step :
      (budget n : ℕ) (e : CacheEntry A) (l l' : List (CacheEntry A))
      → budget < total (e ∷ l)
      → IsCut budget n (take (length l) (e ∷ l)) l'
      → IsCut budget n (e ∷ l) l'
  IsCut-step budget n e l l' over c =
      let short : length (take (length l) (e ∷ l)) ≡ length l =
        length-take_le (length l) (e ∷ l) (omega arith) in
      let count : n ≤ length l = omega (arith, short, c.count) in
      let same : take n (take (length l) (e ∷ l)) ≡ take n (e ∷ l) =
        take-take_le n (length l) (e ∷ l) count in
      record {
        prefix = c.prefix ∙ same;
        count = omega (arith, count);
        fits = omega (arith, ap total same, c.fits);
        tight = elim (dec_lt n (length l)) [
          | yes less ↦ elim c.tight [
            | inl all ↦ absurd (omega (arith, short))
            | inr more ↦
                inr (omega (arith, ap total (take-take_le (suc n) (length l) (e ∷ l) less), more))
          ]
          | no full ↦
              let end : suc n ≡ suc (length l) = omega (arith, count) in
              inr (
                omega
                  (arith, ap (λ k. total (take k (e ∷ l))) end, ap total (take_all (e ∷ l)), over))
        ];
      }

  pub record Shrunk (c c' : Cache A) : Type ℓ where
    pub kept : ℕ
    pub is_cut : IsCut c.max_bytes kept c.ll c'.ll
    pub sound : IsSound c'
    pub same_max : c'.max_bytes ≡ c.max_bytes

  shrink-done : (c : Cache A) → IsSound c → c.cur_bytes ≤ c.max_bytes → Shrunk c c
  shrink-done c s h = record {
    kept = length c.ll;
    is_cut = record {
      prefix = sym (take_all c.ll);
      count = omega arith;
      fits = omega (arith, ap total (take_all c.ll), s.accounted);
      tight = inl refl;
    };
    sound = s;
    same_max = refl;
  }

  module _ (c : Cache A) (e f : CacheEntry A) (l : List (CacheEntry A)) (eq : c.ll ≡ e ∷ l) where
    oldest-found : IsSound c → back (e ∷ l) ≡ some f → find f.key c.ll ≡ some f
    oldest-found s h =
        subst (λ k. find f.key k ≡ some f) (sym eq)
          (back-unlink e l f (subst Distinct eq s.list_distinct) h).0

    evict-ll : IsSound c → back (e ∷ l) ≡ some f → (evict c f).ll ≡ take (length l) (e ∷ l)
    unfolding evict
    evict-ll s h =
        ap (unlink f.key) eq ∙ (back-unlink e l f (subst Distinct eq s.list_distinct) h).1

    Shrunk-evict :
        (c' : Cache A)
        → IsSound c
        → back (e ∷ l) ≡ some f
        → c.max_bytes < c.cur_bytes
        → Shrunk (evict c f) c'
        → Shrunk c c'
    unfolding evict
    Shrunk-evict c' s h over r = record {
      kept = r.kept;
      is_cut =
          subst (λ k. IsCut c.max_bytes r.kept k c'.ll) (sym eq)
            (IsCut-step c.max_bytes r.kept e l c'.ll (omega (arith, ap total eq, s.accounted))
              (subst (λ k. IsCut c.max_bytes r.kept k c'.ll) (evict-ll s h) r.is_cut));
      sound = r.sound;
      same_max = r.same_max;
    }

  -- With more fuel than elements the loop ends by its own tests.
  pub shrink-Shrunk :
      (fuel : ℕ) (c : Cache A) (l : List (CacheEntry A))
      → c.ll ≡ l
      → length l < fuel
      → IsSound c
      → Shrunk c (shrink fuel c)
  unfolding shrink
  shrink-Shrunk zero c l eq h s = elim h [ ]
  shrink-Shrunk (suc fuel) c [] eq h s =
      let fits : c.cur_bytes ≤ c.max_bytes = omega (arith, s.accounted, ap total eq) in
      rw (le→ltb_false c.cur_bytes c.max_bytes fits, shrink) (shrink-done c s fits)
  shrink-Shrunk (suc fuel) c (e ∷ l) eq h s = elim (Bool-cases (ltb c.max_bytes c.cur_bytes)) [
    | inr fits ↦ rw (fits, shrink) (shrink-done c s (ground arith))
    | inl over ↦
        let (f, oldest) = back-some e l in
        let last : back c.ll ≡ some f = subst (λ k. back k ≡ some f) (sym eq) oldest in
        rw (over, shrink, last)
          (Shrunk-evict c e f l eq (shrink fuel (evict c f)) s oldest (ltb→lt _ _ over) (
            shrink-Shrunk fuel (evict c f) (take (length l) (e ∷ l)) (evict-ll c e f l eq s oldest)
              (omega (arith, length-take_le (length l) (e ∷ l) (omega arith)))
              (evict-IsSound f (oldest-found c e f l eq s oldest) s)))
  ]
