-- ===== src/Auth/User.antt =====
-- app/core/auth.py: from the claims of a token to the user and the organisation.
use insyta_api.Prelude.{
  ℕ, ◌&&◌, Option, none, some, List, [], ◌∷◌, ◌==◌, Text, txt, if◌then◌else◌, strip,
}
use insyta_api.Auth.{
  Item, Value, null, text, items, other, Metadata, dict, not_a_dict, Claims, CurrentUser,
  TokenIdentity, Outcome, granted, http, unhandled, is_nonempty, truthy, str_item, truthy_item,
  Jwks, World, done, caught, escaped,
}
use insyta_api.Auth.Token.{decode_token}

-- `value.split(",")`
unfoldable pub split_commas : Text → List Text
split_commas [] = [] ∷ []
split_commas (c ∷ s) = elim (split_commas s) [
  | [] ↦ (c ∷ []) ∷ []
  | p ∷ ps ↦ if c == b',' then [] ∷ p ∷ ps else (c ∷ p) ∷ ps
]

module _ (w : World) where
  -- `str`
  abbrev pub str : Value → Text
  str null = txt "None"
  str (text t) = t
  str (items is) = w.str_items is
  str (other b t) = t

  abbrev pub parse_items : List Text → List ℕ
  parse_items [] = []
  parse_items (t ∷ ts) = elim (w.read_uuid t) [
    | none ↦ parse_items ts
    | some n ↦ n ∷ parse_items ts
  ]

  abbrev pub strip_texts : List Text → List Text
  strip_texts [] = []
  strip_texts (t ∷ ts) =
      let s = strip w.unicode t in if is_nonempty s then s ∷ strip_texts ts else strip_texts ts

  abbrev pub strip_items : List Item → List Text
  strip_items [] = []
  strip_items (i ∷ is) =
      if truthy_item i then strip w.unicode (str_item i) ∷ strip_items is else strip_items is

  unfoldable pub parse_uuid_list : Value → List ℕ
  unfolding split_commas strip
  parse_uuid_list null = []
  parse_uuid_list (text t) = parse_items (strip_texts (split_commas t))
  parse_uuid_list (items is) = parse_items (strip_items is)
  parse_uuid_list (other b t) = []

  -- `a or claims.get("app_metadata", {}).get(…)`; `none` is the `AttributeError` of a value that is
  -- no dictionary.
  unfoldable pub or_metadata : Value → Option Value → Option Value
  or_metadata v meta = if truthy v then some v else meta

  unfoldable pub meta_org : Metadata → Option Value
  meta_org (dict org allowed) = some org
  meta_org not_a_dict = none

  unfoldable pub meta_allowed : Metadata → Option Value
  meta_allowed (dict org allowed) = some allowed
  meta_allowed not_a_dict = none

  -- The organisation of a user without the claim, by `_resolve_org_from_db`.
  unfoldable pub from_db : Claims → Outcome CurrentUser
  unfolding parse_uuid_list
  from_db claims = elim (w.users (str claims.sub)) [
    | none ↦ http 403
    | some (org, allowed) ↦ granted (record {
      user_id = str claims.sub;
      email = str claims.email;
      org_id = org;
      allowed_project_ids = parse_uuid_list allowed;
      raw_claims = claims;
    })
  ]

  -- The organisation of the claim.
  unfoldable pub from_claim : Claims → Value → Outcome CurrentUser
  unfolding parse_uuid_list or_metadata meta_allowed
  from_claim claims org_id = elim (w.read_uuid (str org_id)) [
    | none ↦ http 403
    | some org ↦ elim (or_metadata claims.allowed_project_ids (meta_allowed claims.app_metadata)) [
      | none ↦ unhandled
      | some allowed ↦ granted (record {
        user_id = str claims.sub;
        email = str claims.email;
        org_id = org;
        allowed_project_ids = parse_uuid_list allowed;
        raw_claims = claims;
      })
    ]
  ]

  -- `get_current_user` after the decoding.
  unfoldable pub user_of_claims : Claims → Outcome CurrentUser
  unfolding or_metadata meta_org from_db from_claim
  user_of_claims claims = elim (or_metadata claims.org_id (meta_org claims.app_metadata)) [
    | none ↦ unhandled
    | some org ↦
        if truthy claims.sub && truthy claims.email
        then if truthy org then from_claim claims org else from_db claims
        else http 401
  ]

  unfoldable pub get_current_user : ℕ → Jwks → Text → Outcome CurrentUser × Jwks
  unfolding decode_token user_of_claims
  get_current_user now state [] = (http 401, state)
  get_current_user now state (c ∷ token) =
      let (claims, state') = decode_token w now state (c ∷ token) in
      elim claims [
        | caught ↦ (http 401, state')
        | escaped ↦ (unhandled, state')
        | done cs ↦ (user_of_claims cs, state')
      ]

  unfoldable pub get_token_identity : ℕ → Jwks → Text → Outcome TokenIdentity × Jwks
  unfolding decode_token
  get_token_identity now state [] = (http 401, state)
  get_token_identity now state (c ∷ token) =
      let (claims, state') = decode_token w now state (c ∷ token) in
      elim claims [
        | caught ↦ (http 401, state')
        | escaped ↦ (unhandled, state')
        | done cs ↦ (
          if truthy cs.sub && truthy cs.email
              then granted (record { user_id = str cs.sub; email = str cs.email })
              else http 401,
          state',
        )
      ]
