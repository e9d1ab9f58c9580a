-- ===== src/Middleware/Oidc.antt =====
-- panel-core/internal/middleware/auth.go: OIDC bearer tokens, with a provider that is initialised
-- lazily, and impersonation by an admin.
pub mod Laws
use text.Mathlib.Text.{starts_with}
use kubecp.Common.{
  ℕ, String, ◌<>◌, str_eq, Bool, true, false, not, ◌&&◌, ◌||◌, Option, none, some, List, [], ◌∷◌,
  any, if◌then◌else◌,
}
use kubecp.Common.Text.{is_empty, trim_slashes, split_once, equal_fold}
use kubecp.Http.{Handler, Request, TokenClaims, Exit, reply, write_error}
use kubecp.Middleware.Rbac.{deny}

-- The environment variables that `OIDCAuth` reads.
pub record Environment : Type 0 where
  pub keycloak_issuer_url : String
  pub keycloak_client_id : String
  pub keycloak_url : String
  pub keycloak_realm : String
  pub panel_hostname : String

-- `rawClaims`, with `keycloakRealmAccess` in place
pub record RawClaims : Type 0 where
  pub subject : String
  pub email : String
  pub username : String
  pub realm_roles : List String

-- go-oidc and the identity provider behind it. `discover` is `oidc.NewProvider` at a discovery URL
-- and an expected issuer, `verify` is `IDTokenVerifier.Verify`, `claims` is `IDToken.Claims`.
pub record Idp : Type 1 where
  pub Remote : Type 0
  pub Verifier : Type 0
  pub IdToken : Type 0
  pub discover : String → String → Remote → Option Verifier × Remote
  pub verify : Verifier → String → Remote → Option IdToken × Remote
  pub claims : IdToken → Option RawClaims

-- What the middleware's closure keeps, beside the world of the handler that it wraps.
pub record AuthWorld (idp : Idp) (W : Type 0) : Type 0 where
  pub ready : Option idp.Verifier
  pub remote : idp.Remote
  pub inner : W

unfoldable pub discovery_url : Environment → String
discovery_url env =
    let base = trim_slashes env.keycloak_url in
    if is_empty env.keycloak_issuer_url
    then (if not (is_empty base) && not (is_empty env.keycloak_realm)
        then base <> "/realms/" <> env.keycloak_realm
        else env.keycloak_issuer_url)
    else env.keycloak_issuer_url

unfoldable pub external_issuer : Environment → String
external_issuer env =
    let host = trim_slashes env.panel_hostname in
    let full = if starts_with host "http" then host else "https://" <> host in
    if not (is_empty env.panel_hostname) && not (is_empty env.keycloak_realm)
    then full <> "/realms/" <> env.keycloak_realm
    else ""

unfoldable pub is_configured : Environment → Bool
unfolding discovery_url
is_configured env = not (is_empty (discovery_url env) || is_empty env.keycloak_client_id)

-- The token of an `Authorization` header that is not empty.
unfoldable pub bearer_token : String → Option String
bearer_token header = elim (split_once b' ' header) [
  | none ↦ none
  | some (scheme, token) ↦ if equal_fold scheme "bearer" then some token else none
]

abbrev pub claims_of : RawClaims → TokenClaims
claims_of rc = record {
  subject = rc.subject;
  email = rc.email;
  username = rc.username;
  roles = rc.realm_roles;
}

-- The claims that the handlers see, for the value of `X-Impersonate-User`.
unfoldable pub effective_claims : RawClaims → String → TokenClaims
effective_claims rc impersonate_as =
    if is_empty impersonate_as
    then claims_of rc
    else if any (λ role. str_eq role "admin") rc.realm_roles
    then record (claims_of rc) { username = impersonate_as; roles = "user" ∷ [] }
    else claims_of rc

-- `initProvider`
init_provider : (idp : Idp) → Environment → idp.Remote → Option idp.Verifier × idp.Remote
init_provider idp env = idp.discover (discovery_url env) (external_issuer env)

module _ (idp : Idp) (env : Environment) {W : Type 0} where
  -- the world after `OIDCAuth()` has returned: one attempt is made at once
  unfoldable pub start : idp.Remote → W → AuthWorld idp W
  unfolding init_provider
  start remote w =
      let (v, remote') = init_provider idp env remote in
      record { ready = v; remote = remote'; inner = w }

  -- `getOIDC`, under its mutex
  unfoldable pub get_oidc : AuthWorld idp W → Option idp.Verifier × AuthWorld idp W
  unfolding init_provider
  get_oidc w = elim w.ready [
    | some v ↦ (some v, w)
    | none ↦
        let (v, remote') = init_provider idp env w.remote in
        (v, record w { ready = v; remote = remote' })
  ]

-- The wrapped handler, on its own part of the world.
abbrev pub inside :
    {idp : Idp} {P W : Type 0} → (W → Exit P × W) → AuthWorld idp W → Exit P × AuthWorld idp W
inside next w = let (e, inner') = next w.inner in (e, record w { inner = inner' })

module _ (idp : Idp) {E P W : Type 0} where
  -- The steps from a token that `Verify` has answered for on.
  after_verify :
      Option idp.IdToken → Handler E P W → Request E → AuthWorld idp W → Exit P × AuthWorld idp W
  after_verify none next r w = deny 401 "UNAUTHORIZED" "Invalid or expired token" w
  after_verify (some token) next r w = elim (idp.claims token) [
    | none ↦ deny 401 "UNAUTHORIZED" "Failed to parse token claims" w
    | some rc ↦
        inside
          (next (record r { claims = some (effective_claims rc (r.header "X-Impersonate-User")) }))
          w
  ]

  -- The steps from the header's token on.
  with_bearer :
      idp.Verifier
      → Option String
      → Handler E P W
      → Request E
      → AuthWorld idp W
      → Exit P × AuthWorld idp W
  with_bearer v none next r w = deny 401 "UNAUTHORIZED" "Invalid Authorization header format" w
  with_bearer v (some token) next r w =
      let (answer, remote') = idp.verify v token w.remote in
      after_verify answer next r (record w { remote = remote' })

  unfoldable pub with_provider :
      Option idp.Verifier → Handler E P W → Request E → AuthWorld idp W → Exit P × AuthWorld idp W
  unfolding after_verify with_bearer
  with_provider none next r w =
      deny 503 "SERVICE_UNAVAILABLE" "OIDC provider not available — retrying init" w
  with_provider (some v) next r w =
      if is_empty (r.header "Authorization")
      then deny 401 "UNAUTHORIZED" "Missing Authorization header" w
      else with_bearer v (bearer_token (r.header "Authorization")) next r w

  -- `OIDCAuth()(next)`
  unfoldable pub oidc_auth :
      Environment → Handler E P W → Request E → AuthWorld idp W → Exit P × AuthWorld idp W
  oidc_auth env next r w =
      if not (is_configured env)
      then inside (next r) w
      else if str_eq r.path "/healthz" || str_eq r.path "/readyz"
      then inside (next r) w
      else (let (v, w') = get_oidc idp env w in with_provider v next r w')
