-- ===== src/Tests/Yaml.antt =====
-- A small document format in the place of YAML, which shows that what the token store relies on of
-- its YAML package can be met.
use crate_html.Prelude.{
  ℕ, zero, suc, ◌≡◌, refl, Option, none, some, List, [], ◌∷◌, ◌++◌, Text, length, arith, is_empty,
  false,
}
use crate_html.Token.{Record}
use crate_html.Token.Store.{Codec}
use crate_html.Token.Durable.{IsCodec}

infixl 5 ◌>>=◌
abbrev pub ◌>>=◌ {ℓ κ} : {A : Type ℓ} {B : Type κ} → Option A → (A → Option B) → Option B
none >>= f = none
some a >>= f = f a

abbrev pub put_text : Text → Text → Text
put_text t rest = length t ∷ (t ++ rest)

abbrev pub put_time : Option ℕ → Text → Text
put_time none rest = 0 ∷ rest
put_time (some t) rest = 1 ∷ t ∷ rest

unfoldable pub split_at : ℕ → Text → Option (Text × Text)
split_at zero s = some ([], s)
split_at (suc n) [] = none
split_at (suc n) (c ∷ s) = do (a, b) ← split_at n s; some (c ∷ a, b)

unfoldable pub get_text : Text → Option (Text × Text)
unfolding split_at
get_text [] = none
get_text (n ∷ s) = split_at n s

unfoldable pub get_time : Text → Option (Option ℕ × Text)
get_time [] = none
get_time (zero ∷ s) = some (none, s)
get_time (suc k ∷ []) = none
get_time (suc k ∷ t ∷ s) = some (some t, s)

get_number : Text → Option (ℕ × Text)
get_number [] = none
get_number (n ∷ s) = some (n, s)

put_record : Record → Text → Text
put_record r rest = put_text r.id (
    put_text r.name
      (put_text r.sha256 (r.created_at ∷ put_time r.expires_at (put_time r.last_used_at rest))))

get_record : Text → Option (Record × Text)
unfolding get_text get_time get_number
get_record s = do
  (id, s) ← get_text s
  (name, s) ← get_text s
  (sha256, s) ← get_text s
  (created_at, s) ← get_number s
  (expires_at, s) ← get_time s
  (last_used_at, s) ← get_time s
  some (
    record {
      id = id;
      name = name;
      sha256 = sha256;
      created_at = created_at;
      expires_at = expires_at;
      last_used_at = last_used_at;
    },
    s,
  )

put_all : List Record → Text
unfolding put_record
put_all [] = []
put_all (r ∷ rs) = put_record r (put_all rs)

get_all : ℕ → Text → Option (List Record)
unfolding get_record
get_all zero s = some []
get_all (suc n) s = do (r, s) ← get_record s; rs ← get_all n s; some (r ∷ rs)

unmarshal : Text → Option (List Record)
unfolding get_all
unmarshal [] = none
unmarshal (n ∷ s) = get_all n s

pub split_at-append : (t rest : Text) → split_at (length t) (t ++ rest) ≡ some (t, rest)
unfolding split_at
split_at-append [] rest = refl
split_at-append (c ∷ t) rest = rw (split_at-append t rest)

pub get_text-put_text : (t rest : Text) → get_text (put_text t rest) ≡ some (t, rest)
unfolding get_text
get_text-put_text t rest = split_at-append t rest

pub get_time-put_time : (o : Option ℕ) (rest : Text) → get_time (put_time o rest) ≡ some (o, rest)
unfolding get_time
get_time-put_time none rest = refl
get_time-put_time (some t) rest = ground arith

get_record-put_record : (r : Record) (rest : Text) → get_record (put_record r rest) ≡ some (r, rest)
unfolding get_record put_record
get_record-put_record r rest =
    simp (split_at-append)
      (rw (get_time-put_time r.expires_at) (rw (get_time-put_time r.last_used_at)))

get_all-put_all : (rs : List Record) → get_all (length rs) (put_all rs) ≡ some rs
unfolding get_all put_all
get_all-put_all [] = refl
get_all-put_all (r ∷ rs) = rw (get_record-put_record r (put_all rs)) (rw (get_all-put_all rs))

-- The hash keeps the secret, which is enough for a test.
unfoldable pub toy : Codec
unfolding put_all unmarshal split_at
toy = record {
  marshal = λ rs. some (length rs ∷ put_all rs);
  unmarshal = unmarshal;
  hash_secret = λ s. s;
}

round_trip_toy : (rs : List Record) (d : Text) → toy.marshal rs ≡ some d → toy.unmarshal d ≡ some rs
unfolding toy
round_trip_toy rs d h = ground (arith, get_all-put_all rs)

not_empty_toy : (rs : List Record) (d : Text) → toy.marshal rs ≡ some d → is_empty d ≡ false
unfolding toy
not_empty_toy rs d h = ground arith

pub toy-IsCodec : IsCodec toy
toy-IsCodec = record { round_trip = round_trip_toy; not_empty = not_empty_toy }
