-- ===== src/Auth.antt =====
-- app/core/auth.py: who the bearer of a token is. The library's verification of a token, the key
-- service, the table of users and `uuid.UUID` are parameters; instants are seconds.
pub mod Tenant
pub mod Token
pub mod User
pub mod Cache
mod Tests
use insyta_api.Prelude.{
  ℕ, ◌-◌, Bool, true, false, ◌&&◌, ◌||◌, Option, none, some, List, [], ◌∷◌, ◌==◌, ltb, Text, txt,
  text_eq, if◌then◌else◌, Unicode, strip,
}

-- An item of a list in a claim: a text, or another value by its truth and its `str`.
pub data Item : Type 0 where
  text : Text → Item
  other : Bool → Text → Item

-- A claim's value; a missing claim is `null`, as `get` has it.
pub data Value : Type 0 where
  null : Value
  text : Text → Value
  items : List Item → Value
  other : Bool → Text → Value

-- `app_metadata`: a missing key has the default `{}`.
pub data Metadata : Type 0 where
  dict : (org_id allowed_project_ids : Value) → Metadata
  not_a_dict : Metadata

pub record Claims : Type 0 where
  pub sub : Value
  pub email : Value
  pub org_id : Value
  pub allowed_project_ids : Value
  pub app_metadata : Metadata

pub record CurrentUser : Type 0 where
  pub user_id : Text
  pub email : Text
  pub org_id : ℕ
  pub allowed_project_ids : List ℕ
  pub raw_claims : Claims

pub record TokenIdentity : Type 0 where
  pub user_id : Text
  pub email : Text

-- How a dependency of a request ends: a value, an `HTTPException` by its status, or an exception
-- that nothing handles.
pub data Outcome {ℓ} (A : Type ℓ) : Type ℓ where
  granted : A → Outcome A
  http : ℕ → Outcome A
  unhandled : Outcome A

abbrev pub is_nonempty : Text → Bool
is_nonempty [] = false
is_nonempty (c ∷ s) = true

-- Truth in Python, and `str`.
abbrev pub truthy : Value → Bool
truthy null = false
truthy (text t) = is_nonempty t
truthy (items []) = false
truthy (items (i ∷ is)) = true
truthy (other b t) = b

abbrev pub str_item : Item → Text
str_item (text t) = t
str_item (other b t) = t

abbrev pub truthy_item : Item → Bool
truthy_item (text t) = is_nonempty t
truthy_item (other b t) = b

-- A key of the service, by its `kid`; the state of the cache of keys.
pub record Jwk : Type 0 where
  pub kid : Option Text
  pub material : Text

pub record Jwks : Type 0 where
  pub keys : Option (List Jwk)
  pub fetched_at : ℕ

-- How a request for the keys ends: `httpx.HTTPError` is caught, an answer that is not JSON is not.
pub data Fetched : Type 0 where
  answer : List Jwk → Fetched
  http_error not_json : Fetched

pub record Header : Type 0 where
  pub kid : Option Text
  pub alg : Text

-- The outside of the module.
pub record World : Type 0 where
  pub unicode : Unicode
  pub str_items : List Item → Text
  pub read_uuid : Text → Option ℕ
  pub supabase_url : Text
  pub secret : Text
  pub algorithm : Text
  pub fetch : Fetched
  pub verify : Text → Text → Text → Option Claims
  pub unverified_header : Text → Option Header
  pub users : Text → Option (ℕ × Value)

abbrev pub ttl : ℕ
ttl = 3600

-- A step that returns, raises an exception that `_decode_token` turns into a `JWTError`, or one that
-- it does not catch.
pub data Step {ℓ} (A : Type ℓ) : Type ℓ where
  done : A → Step A
  caught escaped : Step A
