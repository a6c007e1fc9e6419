-- ===== src/Token/Runs.antt =====
-- Whole runs of the token store: operations in any order, with failed saves and restarts.
use crate_html.Prelude.{
  ℕ, ◌≡◌, refl, sym, true, Option, some, List, [], ◌∷◌, Text, Result, ok, err, ap, ◌∙◌, All, map,
  is_empty, arith, Option-cases, inl, inr,
}
use mathlib.Core.Path.{subst}
use crate_html.Token.{id_bytes, secret_bytes}
use crate_html.Token.Persistence.{Persistence}
use crate_html.Token.Store.{Store, Codec, TokenError, create, revoke, verify, load_from}
use crate_html.Token.Invariant.{IsValid, Full, create-IsValid, revoke-IsValid, verify-IsValid}
use crate_html.Token.Durable.{IsCodec, IsDurable, decode, create-IsDurable, revoke-IsDurable}
use crate_html.Token.Lookup.{strip}
use crate_html.Token.Restart.{verify-IsDurable, load_from-strip, IsValid-strip}

-- What the daemon does with its token store. A restart that cannot read the document leaves the
-- daemon down, and its state as it was for the next attempt.
pub data Op : Type 0 where
  mint_op : Text → Option ℕ → ℕ → List (Option (List ℕ)) → Option (List ℕ) → Op
  revoke_op : Text → Op
  verify_op : Text → ℕ → Op
  restart_op : Op

-- rand.Read fills its slices.
abbrev pub IsFed : Op → Type 0
IsFed (mint_op name ttl now draws raw) = All (Full id_bytes) draws × Full secret_bytes raw
IsFed _ = Unit

module _ (C : Codec) (P : Persistence) where
  open P use {Medium}

  abbrev restarted : Store Medium → Result TokenError (Store Medium) → Store Medium
  restarted s (ok s') = s'
  restarted s (err e) = s

  unfoldable pub apply : Store Medium → Op → Store Medium
  apply s (mint_op name ttl now draws raw) = (create C P s name ttl now draws raw).0
  apply s (revoke_op k) = (revoke C P s k).0
  apply s (verify_op bearer now) = (verify C P s bearer now).0
  apply s restart_op = restarted s (load_from C P s.medium)

  unfoldable pub run : Store Medium → List Op → Store Medium
  unfolding apply
  run s [] = s
  run s (op ∷ ops) = run (apply s op) ops

  pub record IsGood (s : Store Medium) : Type 0 where
    pub valid : IsValid s.recs
    pub durable : IsDurable C P s

  restart-IsGood :
      (s : Store Medium) (o : Result TokenError (Store Medium))
      → load_from C P s.medium ≡ o
      → IsGood s
      → IsGood (restarted s o)
  restart-IsGood s (err e) h g = g
  restart-IsGood s (ok s') h g =
      let (same, kept) = load_from-strip C P s s' g.durable h in
      record {
        valid = IsValid-strip s'.recs s.recs same g.valid;
        durable = record {
          stored = g.durable.stored;
          decoded = ap (decode C) kept ∙ g.durable.decoded;
          same = g.durable.same ∙ sym same;
        };
      }

  module _ (Y : IsCodec C) where
    pub apply-IsGood : (s : Store Medium) (op : Op) → IsFed op → IsGood s → IsGood (apply s op)
    unfolding apply
    apply-IsGood s (mint_op name ttl now draws raw) f g = record {
      valid = create-IsValid C P s name ttl now draws raw f.0 f.1 g.valid;
      durable = create-IsDurable C P Y s name ttl now draws raw g.durable;
    }
    apply-IsGood s (revoke_op k) f g = record {
      valid = revoke-IsValid C P s k g.valid;
      durable = revoke-IsDurable C P Y s k g.durable;
    }
    apply-IsGood s (verify_op bearer now) f g = record {
      valid = verify-IsValid C P s bearer now g.valid;
      durable = verify-IsDurable C P Y s bearer now g.durable;
    }
    apply-IsGood s restart_op f g = restart-IsGood s (load_from C P s.medium) refl g

    -- With a document format that reads back what it wrote and random bytes of the right lengths:
    -- from a store with distinct ids and names whose document holds the tokens in memory, every run
    -- of operations, with saves that fail and restarts anywhere, ends in such a store.
    pub run-IsGood :
        (s : Store Medium) (ops : List Op) → All IsFed ops → IsGood s → IsGood (run s ops)
    unfolding run
    run-IsGood s [] f g = g
    run-IsGood s (op ∷ ops) f g = run-IsGood (apply s op) ops f.1 (apply-IsGood s op f.0 g)

  load_from_empty :
      (m : Medium) (s : Store Medium)
      → is_empty (P.content m) ≡ true
      → load_from C P m ≡ ok s
      → (s.recs ≡ []) × (P.content s.medium ≡ P.content m)
  unfolding load_from
  load_from_empty m s e h = elim (Option-cases (P.load m).1) [
    | inl bad ↦ ground arith
    | inr (doc, read) ↦ ground (arith, P.load-content m doc read, P.content-load m)
  ]

  decode_empty : (d : Text) → is_empty d ≡ true → decode C d ≡ some []
  unfolding decode
  decode_empty d e = rw e

  -- The store of a first start, with nothing stored yet, is good.
  pub load_from-IsGood :
      (m : Medium) (s : Store Medium)
      → is_empty (P.content m) ≡ true
      → load_from C P m ≡ ok s
      → IsGood s
  load_from-IsGood m s e h =
      let (none_yet, kept) = load_from_empty m s e h in
      record {
        valid = subst IsValid (sym none_yet) (record { ids = tt; names = tt });
        durable = record {
          stored = [];
          decoded = ap (decode C) kept ∙ decode_empty (P.content m) e;
          same = ap (map strip) (sym none_yet);
        };
      }
