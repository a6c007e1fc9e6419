-- ===== src/Disk/Names.antt =====
-- The staging directory and the backup stand beside the site, under names of their own.
use crate_html.Prelude.{
  ◌≤◌, ◌≡◌, ap, true, false, [], ◌∷◌, ◌++◌, Text, text_eq, text_beq, text_beq_iff, ◌==◌, codes,
  arith, Bool-cases, inl, inr, length, length-append,
}
use crate_html.Name.{validate_site}
use crate_html.Disk.{stage_name, backup_name}

pub stage_name-ne :
    (name suffix : Text) → validate_site name ≡ true → (stage_name name suffix == name) ≡ false
unfolding validate_site text_beq
stage_name-ne [] suffix h = ground arith
stage_name-ne (c ∷ s) suffix h = ground arith

pub stage_name-backup_name :
    (name suffix nanos : Text)
    → validate_site name ≡ true
    → (stage_name name suffix == backup_name name nanos) ≡ false
unfolding validate_site text_beq
stage_name-backup_name [] suffix nanos h = ground arith
stage_name-backup_name (c ∷ s) suffix nanos h = ground arith

pub name-backup_name : (name nanos : Text) → (name == backup_name name nanos) ≡ false
name-backup_name name nanos = elim (Bool-cases (name == backup_name name nanos)) [
  | inr apart ↦ apart
  | inl same ↦
      let e = ap length ((text_beq_iff name (backup_name name nanos)).0 same) in
      let bad : 1 ≤ 0 = omega (arith, e, length-append name (codes ".old-" ++ nanos)) in
      elim bad [ ]
]
