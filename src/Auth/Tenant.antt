-- ===== src/Auth/Tenant.antt =====
-- Whom `get_current_user` of app/core/auth.py grants access, and for which organisation.
use insyta_api.Prelude.{
  ℕ, ◌≡◌, refl, ◌⊎◌, inl, inr, ◌&&◌, true, some, [], ◌∷◌, Text, arith, Bool-cases, Option-cases,
}
use insyta_api.Auth.{
  World, Claims, Value, CurrentUser, Outcome, granted, http, truthy, Jwks, Step, done, caught,
  escaped,
}
use insyta_api.Auth.Token.{decode_token}
use insyta_api.Auth.User.{
  str, parse_uuid_list, or_metadata, meta_org, meta_allowed, from_db, from_claim, user_of_claims,
  get_current_user, get_token_identity,
}

Step-cases :
    (r : Step Claims) → ((claims : Claims) × (r ≡ done claims)) ⊎ ((r ≡ caught) ⊎ (r ≡ escaped))
Step-cases (done claims) = inl (claims, refl)
Step-cases caught = inr (inl refl)
Step-cases escaped = inr (inr refl)

module _ (w : World) where
  -- The organisation is the one that the claims name, or the one that the table of users has.
  abbrev pub OrgOf : Claims → CurrentUser → Type 0
  OrgOf claims u =
      ((org : Value) × (or_metadata w claims.org_id (meta_org w claims.app_metadata) ≡ some org)
        × (truthy org ≡ true)
        × (w.read_uuid (str w org) ≡ some u.org_id))
      ⊎ ((allowed : Value) × (w.users (str w claims.sub) ≡ some (u.org_id, allowed)))

  -- What the user is granted on.
  abbrev pub Backed : Claims → CurrentUser → Type 0
  Backed claims u =
      (truthy claims.sub ≡ true)
      × (truthy claims.email ≡ true)
      × (u.user_id ≡ str w claims.sub)
      × (u.email ≡ str w claims.email)
      × OrgOf claims u

  from_db-Backed :
      (claims : Claims) (u : CurrentUser)
      → truthy claims.sub ≡ true
      → truthy claims.email ≡ true
      → from_db w claims ≡ granted u
      → Backed claims u
  unfolding from_db
  from_db-Backed claims u s e h = elim (Option-cases (w.users (str w claims.sub))) [
    | inl q ↦ ground (arith, q, h)
    | inr ((org, allowed), q) ↦
        (s, e, ground (arith, q, h), ground (arith, q, h), inr (allowed, ground (arith, q, h)))
  ]

  from_claim-Backed :
      (claims : Claims) (org : Value) (u : CurrentUser)
      → or_metadata w claims.org_id (meta_org w claims.app_metadata) ≡ some org
      → truthy org ≡ true
      → truthy claims.sub ≡ true
      → truthy claims.email ≡ true
      → from_claim w claims org ≡ granted u
      → Backed claims u
  unfolding from_claim
  from_claim-Backed claims org u o t s e h = elim (Option-cases (w.read_uuid (str w org))) [
    | inl q ↦ ground (arith, q, h)
    | inr (n, q) ↦
        elim (Option-cases
          (or_metadata w claims.allowed_project_ids (meta_allowed w claims.app_metadata))) [
            | inl r ↦ ground (arith, q, r, h)
            | inr (allowed, r) ↦ (
              s,
              e,
              ground (arith, q, r, h),
              ground (arith, q, r, h),
              inl (org, o, t, ground (arith, q, r, h)),
            )
          ]
  ]

  user_of_claims-Backed :
      (claims : Claims) (u : CurrentUser) → user_of_claims w claims ≡ granted u → Backed claims u
  unfolding user_of_claims
  user_of_claims-Backed claims u h =
      elim (Option-cases (or_metadata w claims.org_id (meta_org w claims.app_metadata))) [
        | inl q ↦ ground (arith, q, h)
        | inr (org, q) ↦ elim (Bool-cases (truthy claims.sub && truthy claims.email)) [
          | inr f ↦ ground (arith, q, f, h)
          | inl t ↦
              let s : truthy claims.sub ≡ true = ground (arith, t) in
              let e : truthy claims.email ≡ true = ground (arith, t) in
              elim (Bool-cases (truthy org)) [
                | inl y ↦ from_claim-Backed claims org u q y s e (ground (arith, q, t, y, h))
                | inr n ↦ from_db-Backed claims u s e (ground (arith, q, t, n, h))
              ]
        ]
      ]

  -- A user is granted only on a token that decodes: its claims have a subject and an email, which
  -- are the user's, and the organisation is the one that the claims name or, by the subject, the
  -- one of the table of users.
  pub get_current_user-Backed :
      (now : ℕ) (state : Jwks) (token : Text) (u : CurrentUser)
      → (get_current_user w now state token).0 ≡ granted u
      → (claims : Claims) × ((decode_token w now state token).0 ≡ done claims) × Backed claims u
  unfolding get_current_user
  get_current_user-Backed now state [] u h = ground (arith, h)
  get_current_user-Backed now state (c ∷ token) u h =
      elim (Step-cases (decode_token w now state (c ∷ token)).0) [
        | inl (claims, q) ↦ (claims, q, user_of_claims-Backed claims u (ground (arith, q, h)))
        | inr (inl q) ↦ ground (arith, q, h)
        | inr (inr q) ↦ ground (arith, q, h)
      ]

  -- The user, or a refusal.
  abbrev Settled : Outcome CurrentUser → Type 0
  Settled r = ((u : CurrentUser) × (r ≡ granted u)) ⊎ ((r ≡ http 401) ⊎ (r ≡ http 403))

  -- The user that is granted for an organisation.
  abbrev user_for : Claims → ℕ → Value → CurrentUser
  user_for claims org allowed = record {
    user_id = str w claims.sub;
    email = str w claims.email;
    org_id = org;
    allowed_project_ids = parse_uuid_list w allowed;
    raw_claims = claims;
  }

  -- The bootstrap, which does not ask for an organisation, takes every user that is granted to be
  -- the same one, by the same identity and email.
  pub get_current_user-get_token_identity :
      (now : ℕ) (state : Jwks) (token : Text) (u : CurrentUser)
      → (get_current_user w now state token).0 ≡ granted u
      → (get_token_identity w now state token).0
        ≡ granted (record { user_id = u.user_id; email = u.email })
  unfolding get_token_identity get_current_user
  get_current_user-get_token_identity now state [] u h = ground (arith, h)
  get_current_user-get_token_identity now state (c ∷ token) u h =
      let (claims, q, (s, e, i, a, org)) = get_current_user-Backed now state (c ∷ token) u h in
      ground (arith, q, s, e, i, a)
