-- ===== src/Middleware/Oidc/Laws.antt =====
-- On the middleware of panel-core/internal/middleware/auth.go.
use kubecp.Common.{
  String, str_eq, eq_iff, ◌≡◌, refl, inl, inr, ◌≢◌, true, Option, none, some, [], ◌∷◌, Any, any_iff,
  ℕ, arith, Bool-cases, Option-cases,
}
use kubecp.Common.Text.{is_empty}
use kubecp.Common.Text.Laws.{is_empty_iff, str_ne}
use kubecp.Http.{Handler, Request, Exit}
use kubecp.Middleware.Rbac.{deny}
use kubecp.Middleware.Rbac.Laws.{HasRole}
use kubecp.Middleware.Oidc.{
  Idp, RawClaims, AuthWorld, Environment, is_configured, effective_claims, bearer_token, get_oidc,
  inside, after_verify, with_bearer, with_provider, oidc_auth, claims_of,
}

-- Impersonation grants nothing: the effective claims hold the admin role only if the token does and
-- no user is impersonated, and then they are the token's own.
effective_claims-admin :
    (rc : RawClaims) (as_user : String)
    → HasRole (some (effective_claims rc as_user)) "admin"
    → (as_user ≡ "")
      × Any (λ r. r ≡ "admin") rc.realm_roles
      × (effective_claims rc as_user ≡ claims_of rc)
unfolding effective_claims
effective_claims-admin rc as_user h = ground (
  arith,
  is_empty_iff as_user,
  any_iff (λ r. r ≡ "admin") (λ r. str_eq r "admin") (λ r. eq_iff r "admin") rc.realm_roles,
  eq_iff "user" "admin",
)

-- Only a token with the admin role acts under another name.
effective_claims-username :
    (rc : RawClaims) (as_user : String)
    → (effective_claims rc as_user).username ≢ rc.username
    → Any (λ r. r ≡ "admin") rc.realm_roles
      × ((effective_claims rc as_user).username ≡ as_user)
      × ((effective_claims rc as_user).roles ≡ "user" ∷ [])
unfolding effective_claims
effective_claims-username rc as_user h = ground (
  arith,
  is_empty_iff as_user,
  any_iff (λ r. r ≡ "admin") (λ r. str_eq r "admin") (λ r. eq_iff r "admin") rc.realm_roles,
)

module _ (idp : Idp) {E P W : Type 0} where
  -- The call ends without the handler, or the handler runs once, on claims of a verified token.
  pub data Admitted (next : Handler E P W) (r : Request E) (w : AuthWorld idp W)
      (out : Exit P × AuthWorld idp W) : Type 0 where
    refused :
        (status : ℕ) (code message : String) (w' : AuthWorld idp W)
        → out ≡ deny status code message w'
        → w'.inner ≡ w.inner
        → Admitted next r w out
    served :
        (v : idp.Verifier) (token : String) (remote : idp.Remote) (id : idp.IdToken)
        (rc : RawClaims) (w' : AuthWorld idp W)
        → bearer_token (r.header "Authorization") ≡ some token
        → (idp.verify v token remote).0 ≡ some id
        → idp.claims id ≡ some rc
        → w'.inner ≡ w.inner
        → out
          ≡ inside
              (next
                (record r { claims = some (effective_claims rc (r.header "X-Impersonate-User")) }))
              w'
        → Admitted next r w out

  module _ (next : Handler E P W) (r : Request E) (w : AuthWorld idp W) where
    verified-Admitted :
        (v : idp.Verifier) (token : String) (remote : idp.Remote) (answer : Option idp.IdToken)
        (w' : AuthWorld idp W)
        → bearer_token (r.header "Authorization") ≡ some token
        → (idp.verify v token remote).0 ≡ answer
        → w'.inner ≡ w.inner
        → Admitted next r w (after_verify idp answer next r w')
    unfolding after_verify
    verified-Admitted v token remote none w' t e same =
        refused 401 "UNAUTHORIZED" "Invalid or expired token" w' refl same
    verified-Admitted v token remote (some id) w' t e same = elim (Option-cases (idp.claims id)) [
      | inl n ↦
          refused 401 "UNAUTHORIZED" "Failed to parse token claims" w' (rw (n, after_verify)) same
      | inr (rc, c) ↦ served v token remote id rc w' t e c same (rw (c, after_verify))
    ]

    bearer-Admitted :
        (v : idp.Verifier) (o : Option String) (w' : AuthWorld idp W)
        → bearer_token (r.header "Authorization") ≡ o
        → w'.inner ≡ w.inner
        → Admitted next r w (with_bearer idp v o next r w')
    unfolding with_bearer
    bearer-Admitted v none w' t same =
        refused 401 "UNAUTHORIZED" "Invalid Authorization header format" w' refl same
    bearer-Admitted v (some token) w' t same =
        verified-Admitted v token w'.remote (idp.verify v token w'.remote).0
          (record w' { remote = (idp.verify v token w'.remote).1 }) t refl same

    provider-Admitted :
        (v : Option idp.Verifier) (w' : AuthWorld idp W)
        → w'.inner ≡ w.inner
        → Admitted next r w (with_provider idp v next r w')
    unfolding with_provider
    provider-Admitted none w' same =
        refused 503 "SERVICE_UNAVAILABLE" "OIDC provider not available — retrying init" w' refl same
    provider-Admitted (some v) w' same = elim (Bool-cases (is_empty (r.header "Authorization"))) [
      | inl e ↦ refused 401 "UNAUTHORIZED" "Missing Authorization header" w' (rw e) same
      | inr e ↦ rw e (bearer-Admitted v (bearer_token (r.header "Authorization")) w' refl same)
    ]

inner-get_oidc :
    (idp : Idp) (env : Environment) {W : Type 0} (w : AuthWorld idp W)
    → (get_oidc idp env w).1.inner ≡ w.inner
unfolding get_oidc
inner-get_oidc idp env w = elim (Option-cases w.ready) [ inl e ↦ rw e | inr (v, e) ↦ rw e ]

pub oidc_auth-Admitted :
    (idp : Idp) (env : Environment) {E P W : Type 0} (next : Handler E P W) (r : Request E)
    (w : AuthWorld idp W)
    → is_configured env ≡ true
    → r.path ≢ "/healthz"
    → r.path ≢ "/readyz"
    → Admitted idp next r w (oidc_auth idp env next r w)
unfolding oidc_auth
oidc_auth-Admitted idp env next r w conf p q =
    rw (conf, str_ne r.path "/healthz" p, str_ne r.path "/readyz" q)
      (provider-Admitted idp next r w (get_oidc idp env w).0 (get_oidc idp env w).1
        (inner-get_oidc idp env w))
