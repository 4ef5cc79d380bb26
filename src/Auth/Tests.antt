-- ===== src/Auth/Tests.antt =====
-- The theorems on access at a concrete service and token.
use insyta_api.Prelude.{◌≡◌, refl, none, some, [], ◌∷◌, txt, text_eq, if◌then◌else◌, ascii}
use insyta_api.Auth.{World, Claims, null, text, dict, CurrentUser, granted, Jwk, Jwks, answer, done}
use insyta_api.Auth.Token.{decode_token}
use insyta_api.Auth.User.{get_current_user}
use insyta_api.Auth.Tenant.{Backed, get_current_user-Backed}

abbrev ana : Claims
ana = record {
  sub = text (txt "u1");
  email = text (txt "ana@x.com");
  org_id = null;
  allowed_project_ids = null;
  app_metadata = dict (text (txt "7")) (text (txt "7, x,"));
}

abbrev a_key : Jwk
a_key = record { kid = some (txt "k"); material = txt "pub" }

-- A service whose secret verifies one token.
abbrev world : World
world = record {
  unicode = ascii;
  str_items = λ is. [];
  read_uuid = λ t. if text_eq t (txt "7") then some 7 else none;
  supabase_url = txt "https://x";
  secret = txt "s";
  algorithm = txt "HS256";
  fetch = answer (a_key ∷ []);
  verify = λ token key alg. if text_eq token (txt "good") then some ana else none;
  unverified_header = λ token. none;
  users = λ sub. none;
}

abbrev cold : Jwks
cold = record { keys = none; fetched_at = 0 }

abbrev user : CurrentUser
user = record {
  user_id = txt "u1";
  email = txt "ana@x.com";
  org_id = 7;
  allowed_project_ids = 7 ∷ [];
  raw_claims = ana;
}

in_tenant : (get_current_user world 0 cold (txt "good")).0 ≡ granted user
unfolding get_current_user text_eq
in_tenant = refl

get_current_user-Backed_example :
    (claims : Claims) × ((decode_token world 0 cold (txt "good")).0 ≡ done claims)
    × Backed world claims user
get_current_user-Backed_example = get_current_user-Backed world 0 cold (txt "good") user in_tenant
