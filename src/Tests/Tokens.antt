-- ===== src/Tests/Tokens.antt =====
-- The token store on a file, with the small document format and a hash that keeps the secret.
use crate_html.Prelude.{
  ℕ, ◌≡◌, refl, ◌↔◌, false, Option, none, some, List, [], ◌∷◌, ◌++◌, Text, text_eq, codes, ok, err,
  All, ◌==◌, if◌then◌else◌, cut_prefix, cut, text_beq, lookup, insert, delete,
}
use crate_html.Name.{validate_token}
use crate_html.Token.{Record, hex, plaintext, id_bytes, secret_bytes}
use crate_html.Token.Persistence.{Files, file_store, file_load, file_save}
use crate_html.Token.Store.{
  Store, duplicate_name, save_failed, saved_uses, fresh_id, index_of, remove_at, id_at, find_id,
  mark_used, split_bearer, save_locked, load_from, new_record, create, list, revoke, touch, verify,
}
use crate_html.Token.Verify
use crate_html.Token.Verify.{Accepts}
use crate_html.Token.Invariant
use crate_html.Token.Invariant.{Full, IsValid}
use crate_html.Token.Verdicts
use crate_html.Token.Removal.{Named}
use crate_html.Token.Durable.{decode}
use crate_html.Token.Restart
use crate_html.Token.Runs.{
  Op, mint_op, revoke_op, verify_op, restart_op, IsGood, run, run-IsGood, load_from-IsGood,
}
use crate_html.Tests.Yaml.{toy, toy-IsCodec}

-- All that a run computes with.
program : Unit {0}
unfolding toy validate_token hex plaintext file_load file_save fresh_id index_of remove_at id_at
    find_id mark_used split_bearer save_locked load_from new_record create list revoke touch verify
    saved_uses cut_prefix cut text_beq lookup insert delete run decode
program = tt

abbrev pub start : Store Files
start = record {
  medium = record { file = none; tmp = none; answers = [] };
  recs = [];
  last_saved = [];
}

abbrev pub draws : List (Option (List ℕ))
draws = some (0xde ∷ 0xad ∷ 0xbe ∷ 0xef ∷ []) ∷ []

abbrev pub raw : Option (List ℕ)
raw = some (
    0 ∷ 1 ∷ 2 ∷ 3 ∷ 4 ∷ 5 ∷ 6 ∷ 7 ∷ 8 ∷ 9 ∷ 10 ∷ 11 ∷ 12 ∷ 13 ∷ 14 ∷ 15 ∷ 16 ∷ 17 ∷ 18 ∷ 19 ∷ 20
    ∷ 21 ∷ 22 ∷ 23 ∷ 24 ∷ 25 ∷ 26 ∷ 27 ∷ 28 ∷ 29 ∷ 30 ∷ 31 ∷ [])

abbrev pub secret : Text
secret = codes "000102030405060708090a0b0c0d0e0f101112131415161718191a1b1c1d1e1f"

abbrev pub bearer : Text
bearer = codes "crate_deadbeef_" ++ secret

abbrev rec : Record
rec = record {
  id = codes "deadbeef";
  name = codes "laptop";
  sha256 = secret;
  created_at = 1000;
  expires_at = some 1500;
  last_used_at = none;
}

minted :
    (create toy file_store start (codes "laptop") (some 500) 1000 draws raw).1 ≡ ok (bearer, rec)
unfolding program
minted = refl

abbrev pub one : Store Files
one = (create toy file_store start (codes "laptop") (some 500) 1000 draws raw).0

pub fed : All (Full id_bytes) draws × Full secret_bytes raw
fed = ((refl, tt), refl)

-- One instant later it has expired.
expires : (verify toy file_store one bearer 1501).1 ≡ none
unfolding program
expires = refl

verify_iff_example :
    ((verify toy file_store one bearer 1200).1 ≡ some (record rec { last_used_at = some 1200 })) ↔ (
      (r : Record) × Accepts toy one.recs bearer 1200 r
      × (record rec { last_used_at = some 1200 } ≡ record r { last_used_at = some 1200 }))
verify_iff_example =
    Verify.verify_iff toy file_store one bearer 1200 (record rec { last_used_at = some 1200 })

abbrev other : Text
other = codes "crate_cafe_00"

other_parts : split_bearer other ≡ some (codes "cafe", codes "00")
unfolding program
other_parts = refl

ids_differ : (rec.id == codes "cafe") ≡ false
unfolding program
ids_differ = refl

empty-IsValid : IsValid []
empty-IsValid = record { ids = tt; names = tt }

one-IsValid : IsValid one.recs
one-IsValid =
    Invariant.create-IsValid toy file_store start (codes "laptop") (some 500) 1000 draws raw fed.0
      fed.1 empty-IsValid

bearer_parts : split_bearer bearer ≡ some (codes "deadbeef", secret)
unfolding program
bearer_parts = refl

revoked : (revoke toy file_store one (codes "laptop")).1 ≡ ok tt
unfolding program
revoked = refl

verify-revoke_example :
    (r : Record) × Named (codes "laptop") one.recs r
    × ((bearer id secret : Text) (now : ℕ)
        → split_bearer bearer ≡ some (id, secret)
        → (verify toy file_store (revoke toy file_store one (codes "laptop")).0 bearer now).1
          ≡ (if r.id == id then none else (verify toy file_store one bearer now).1))
verify-revoke_example =
    Verdicts.verify-revoke toy file_store one (codes "laptop") one-IsValid revoked

abbrev used : Store Files
used = (verify toy file_store one bearer 1200).0

used_at : lookup (codes "deadbeef") used.last_saved ≡ some 1200
unfolding program
used_at = refl

used_again :
    (verify toy file_store used bearer 1300).1 ≡ some (record rec { last_used_at = some 1300 })
unfolding program
used_again = refl

start_loads : load_from toy file_store start.medium ≡ ok start
unfolding program
start_loads = refl

start-IsGood : IsGood toy file_store start
start-IsGood = load_from-IsGood toy file_store start.medium start refl start_loads

-- Mint, use, a restart, a use and a revocation.
abbrev script : List Op
script =
    mint_op (codes "laptop") (some 500) 1000 draws raw
    ∷ verify_op bearer 1200
    ∷ restart_op
    ∷ verify_op bearer 1300
    ∷ revoke_op (codes "deadbeef")
    ∷ []

run-IsGood_example : IsGood toy file_store (run toy file_store start script)
run-IsGood_example =
    run-IsGood toy file_store toy-IsCodec start script (fed, (tt, (tt, (tt, (tt, tt)))))
      start-IsGood

all_gone : (run toy file_store start script).recs ≡ []
unfolding program
all_gone = refl

one-IsGood : IsGood toy file_store one
unfolding program
one-IsGood =
    run-IsGood toy file_store toy-IsCodec start
      (mint_op (codes "laptop") (some 500) 1000 draws raw ∷ []) (fed, tt) start-IsGood

abbrev reloaded : Store Files
reloaded = record one { last_saved = [] }

one_reloads : load_from toy file_store one.medium ≡ ok reloaded
unfolding program
one_reloads = refl

verify-load_from_example :
    (verify toy file_store reloaded bearer 1200).1 ≡ (verify toy file_store one bearer 1200).1
verify-load_from_example =
    Restart.verify-load_from toy file_store one reloaded bearer 1200 one-IsGood.durable one_reloads

duplicate : (create toy file_store one (codes "laptop") none 2000 draws raw).1 ≡ err duplicate_name
unfolding program
duplicate = refl

-- The temporary file cannot be written.
abbrev full_disk : Store Files
full_disk = record one { medium = record one.medium { answers = false ∷ [] } }

not_revoked : (revoke toy file_store full_disk (codes "laptop")).1 ≡ err save_failed
unfolding program
not_revoked = refl

revoke-err_example : (revoke toy file_store full_disk (codes "laptop")).0.recs ≡ full_disk.recs
revoke-err_example =
    Invariant.revoke-err toy file_store full_disk (codes "laptop") save_failed not_revoked
