-- ===== src/Auth/Cache.antt =====
-- The cache of the service's keys (`_fetch_jwks` of app/core/auth.py).
use insyta_api.Prelude.{ℕ, ◌+◌, ◌<◌, ◌≡◌, true, false, List, arith}
use insyta_api.Auth.{World, Jwk, Jwks, done}
use insyta_api.Auth.Token.{fetch_jwks}

module _ (w : World) where
  -- After a call that had the keys from the service, a call within the hour gives the same keys
  -- without a request and leaves the cache as it is.
  pub fetch_jwks-fetch_jwks :
      (now later : ℕ) (state : Jwks) (ks : List Jwk)
      → (fetch_jwks w now state).0 ≡ done ks
      → (fetch_jwks w now state).2 ≡ true
      → later < now + 3600
      → let (keys, state', asked) = fetch_jwks w now state in
        fetch_jwks w later state' ≡ (done ks, state', false)
  unfolding fetch_jwks
  fetch_jwks-fetch_jwks now later state ks h asked lt = ground arith
