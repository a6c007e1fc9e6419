-- ===== src/Token/Persistence.antt =====
-- `Persistence` of internal/token/token.go: where the serialized token document lives. Its laws are
-- what the interface's comment asks of an implementation; FileStore is one.
use crate_html.Prelude.{◌≡◌, Bool, true, false, Option, none, some, Text, List, [], ◌∷◌, arith}

pub record Persistence : Type 1 where
  pub Medium : Type 0
  -- `none` is an error; the empty text stands for a document that was never stored
  pub load : Medium → Medium × Option Text
  pub save : Text → Medium → Medium × Bool
  -- the document that a reader would find
  pub content : Medium → Text
  pub load-content : (m : Medium) (d : Text) → (load m).1 ≡ some d → d ≡ content m
  pub content-load : (m : Medium) → content (load m).0 ≡ content m
  pub content-save : (d : Text) (m : Medium) → (save d m).1 ≡ true → content (save d m).0 ≡ d
  pub content-save_failed :
      (d : Text) (m : Medium) → (save d m).1 ≡ false → content (save d m).0 ≡ content m

-- What the file system answers to the next calls, `true` for success.
abbrev pub next_answer : List Bool → Bool
next_answer [] = true
next_answer (a ∷ answers) = a

abbrev pub later_answers : List Bool → List Bool
later_answers [] = []
later_answers (a ∷ answers) = answers

-- The file at `Path`, the file at `Path + ".tmp"`, and the answers to come.
pub record Files : Type 0 where
  pub file : Option Text
  pub tmp : Option Text
  pub answers : List Bool

abbrev pub contents : Option Text → Text
contents none = []
contents (some d) = d

-- FileStore.Load: a missing file is an empty document.
unfoldable pub file_load : Files → Files × Option Text
file_load fs = elim fs.file [
  | none ↦ (fs, some [])
  | some d ↦ (
    record fs { answers = later_answers fs.answers },
    elim (next_answer fs.answers) [ true ↦ some d | false ↦ none ],
  )
]

-- os.WriteFile on the temporary file: a failure leaves it cut short.
unfoldable pub write_tmp : Text → Files → Files × Bool
write_tmp d fs = (
  record fs {
    tmp = elim (next_answer fs.answers) [ true ↦ some d | false ↦ some [] ];
    answers = later_answers fs.answers;
  },
  next_answer fs.answers,
)

-- os.Rename of the temporary file over the file, in one step or not at all.
unfoldable pub install_tmp : Files → Files × Bool
install_tmp fs = elim (next_answer fs.answers) [
  | true ↦ (record { file = fs.tmp; tmp = none; answers = later_answers fs.answers }, true)
  | false ↦ (record fs { answers = later_answers fs.answers }, false)
]

-- FileStore.Save
unfoldable pub file_save : Text → Files → Files × Bool
unfolding write_tmp install_tmp
file_save d fs =
    let (fs', written) = write_tmp d fs in
    elim written [ true ↦ install_tmp fs' | false ↦ (fs', false) ]

pub file_load-contents : (m : Files) (d : Text) → (file_load m).1 ≡ some d → d ≡ contents m.file
unfolding file_load
file_load-contents m d h = ground arith

pub contents-file_load : (m : Files) → contents (file_load m).0.file ≡ contents m.file
unfolding file_load
contents-file_load m = ground arith

pub contents-file_save :
    (d : Text) (m : Files) → (file_save d m).1 ≡ true → contents (file_save d m).0.file ≡ d
unfolding file_save
contents-file_save d m h = ground arith

pub contents-file_save_failed :
    (d : Text) (m : Files)
    → (file_save d m).1 ≡ false
    → contents (file_save d m).0.file ≡ contents m.file
unfolding file_save
contents-file_save_failed d m h = ground arith

-- FileStore is a Persistence.
abbrev pub file_store : Persistence
file_store = record {
  Medium = Files;
  load = file_load;
  save = file_save;
  content = λ m. contents m.file;
  load-content = file_load-contents;
  content-load = contents-file_load;
  content-save = contents-file_save;
  content-save_failed = contents-file_save_failed;
}
