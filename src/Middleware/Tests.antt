-- ===== src/Middleware/Tests.antt =====
-- The middleware at concrete requests.
use kubecp.Common.{ℕ, suc, String, ◌≡◌, ◌≢◌, refl, inl, Option, none, some, [], ◌∷◌, arith, eq_iff}
use kubecp.Common.Text.{trim_slashes, split_once, equal_fold}
use kubecp.Http.{Handler, Request, TokenClaims, reply, no_body}
use kubecp.Middleware.Rbac.{require_role}
use kubecp.Middleware.Rbac.Laws.{HasRole, Holds, Guarded, require_role-Guarded}
use kubecp.Middleware.Oidc.{
  is_configured, discovery_url, external_issuer, bearer_token, effective_claims, oidc_auth,
  with_provider, get_oidc,
}
use kubecp.Middleware.Sample.{raw, provider, environment, request, waiting}

-- A handler that counts its calls.
abbrev counter : Handler ℕ ℕ ℕ
counter r n = (reply (record { status = 204; body = no_body }), suc n)

abbrev carol : TokenClaims
carol = record { subject = "3"; email = "c@x"; username = "carol"; roles = "user" ∷ [] }

abbrev from_carol : Request ℕ
from_carol = record (request 0) { claims = some carol }

urls :
    (discovery_url environment ≡ "http://keycloak/realms/hosting")
    × (external_issuer (record environment { panel_hostname = "panel.example.com/" })
        ≡ "https://panel.example.com/realms/hosting")
unfolding discovery_url external_issuer trim_slashes
urls = (refl, refl)

tokens : (bearer_token "bEARER a b" ≡ some "a b") × (bearer_token "Basic x" ≡ none)
unfolding bearer_token split_once equal_fold
tokens = (refl, refl)

-- An admin who impersonates Alice runs the handler once, and needs no more than the role user.
admitted_run :
    (oidc_auth provider environment
      (require_role ("user" ∷ []) counter)
      (request 0)
      (waiting 0)).1.inner
    ≡ 1
unfolding oidc_auth is_configured get_oidc with_provider bearer_token effective_claims require_role
    trim_slashes split_once equal_fold
admitted_run = refl

require_role-Guarded_example :
    Guarded
      (Holds ("admin" ∷ []))
      "Insufficient permissions"
      (require_role ("admin" ∷ []) counter)
      counter
      from_carol
      5
require_role-Guarded_example = require_role-Guarded ("admin" ∷ []) counter from_carol 5

abbrev labels : String → Option String
labels key = some "carol"

admin_kept : HasRole (some (effective_claims raw "")) "admin"
unfolding effective_claims
admin_kept = inl refl

renamed : (effective_claims raw "alice").username ≢ raw.username
unfolding effective_claims
renamed = ground (arith, eq_iff "alice" "root")
