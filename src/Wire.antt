-- ===== src/Wire.antt =====
-- internal/wire/wire.go and internal/server/backend.go: what the daemon and its clients exchange,
-- and what the HTTP layer asks of a store of sites. Instants are counted from Go's zero time.
use crate_html.Prelude.{ℕ, Bool, Option, List, Text, Result}

pub record Site : Type 0 where
  pub name : Text
  pub updated_at : ℕ
  pub size_bytes : ℕ
  pub file_count : ℕ
  pub expires_at : Option ℕ

pub record TokenInfo : Type 0 where
  pub id : Text
  pub name : Text
  pub created_at : ℕ
  pub expires_at : Option ℕ
  pub last_used_at : Option ℕ

pub record CreateTokenRequest : Type 0 where
  pub name : Text
  pub expires : Text

-- The errors that the HTTP layer tells apart.
pub data StoreError : Type 0 where
  invalid_name not_found unsafe_path site_too_large failed : StoreError

-- The interface Backend, over the state of the store. A read may change it too, since a store may
-- keep what it read. `replace` takes the archive, the lifetime and the present, `delete_expired`
-- the present; the latter gives the names removed and whether it failed.
pub record Backend : Type 1 where
  pub State : Type 0
  pub Fs : Type 0
  pub list : State → State × Result StoreError (List Site)
  pub names : State → State × Result StoreError (List Text)
  pub exists : Text → State → State × Result StoreError Bool
  pub stat : Text → State → State × Result StoreError Site
  pub open_site : Text → State → State × Result StoreError Fs
  pub replace : Text → Text → Option ℕ → ℕ → State → State × Result StoreError Site
  pub delete : Text → State → State × Result StoreError (Unit {0})
  pub delete_expired : ℕ → State → State × (List Text × Bool)
