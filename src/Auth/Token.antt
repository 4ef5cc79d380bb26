-- ===== src/Auth/Token.antt =====
-- app/core/auth.py: how a token is decoded, and the cache of the service's keys.
use insyta_api.Prelude.{
  ℕ, ◌-◌, Bool, true, false, Option, none, some, List, [], ◌∷◌, ltb, Text, text_eq, if◌then◌else◌,
}
use insyta_api.Auth.{
  Claims, is_nonempty, Jwk, Jwks, answer, http_error, not_json, World, ttl, Step, done, caught,
  escaped,
}

abbrev pub same_kid : Option Text → Option Text → Bool
same_kid none none = true
same_kid none (some l) = false
same_kid (some k) none = false
same_kid (some k) (some l) = text_eq k l

unfoldable pub find_key : Option Text → List Jwk → Option Jwk
find_key kid [] = none
find_key kid (k ∷ ks) = if same_kid k.kid kid then some k else find_key kid ks

module _ (w : World) where
  -- `_fetch_jwks`: the keys, the cache, and whether a request was sent.
  unfoldable pub fetch_jwks : ℕ → Jwks → Step (List Jwk) × Jwks × Bool
  fetch_jwks now state =
      let ask =
        (if is_nonempty w.supabase_url
          then elim w.fetch as (λ _. Step (List Jwk) × Jwks × Bool) [
            | answer ks ↦ (done ks, record { keys = some ks; fetched_at = now }, true)
            | http_error ↦ (caught, state, true)
            | not_json ↦ (escaped, state, true)
          ]
          else (caught, state, false)) in
      elim state.keys [
        | none ↦ ask
        | some ks ↦ if ltb (now - state.fetched_at) ttl then (done ks, state, false) else ask
      ]

  -- `_decode_with_jwks`
  unfoldable pub decode_with_jwks : ℕ → Jwks → Text → Step Claims × Jwks
  unfolding fetch_jwks find_key
  decode_with_jwks now state token =
      let (keys, state', asked) = fetch_jwks now state in
      elim keys [
        | caught ↦ (caught, state')
        | escaped ↦ (escaped, state')
        | done ks ↦ elim (w.unverified_header token) [
          | none ↦ (caught, state')
          | some h ↦ elim (find_key h.kid ks) [
            | none ↦ (caught, state')
            | some k ↦ elim (w.verify token k.material h.alg) [
              | none ↦ (caught, state')
              | some claims ↦ (done claims, state')
            ]
          ]
        ]
      ]

  -- `_decode_token`: the project's secret first, then the keys of the service.
  unfoldable pub decode_token : ℕ → Jwks → Text → Step Claims × Jwks
  unfolding decode_with_jwks
  decode_token now state token = elim (w.verify token w.secret w.algorithm) [
    | some claims ↦ (done claims, state)
    | none ↦ decode_with_jwks now state token
  ]
