-- ===== src/Api/Dns/Handlers/Guarded.antt =====
-- What stands in front of the handlers of dns.go: api/router.go with the middleware.
use kubecp.Common.{
  String, ◌≡◌, refl, sym, ◌∙◌, ap, subst, some-injective, ◌⊎◌, ◌≢◌, inl, inr, true, some, List, [],
  ◌∷◌,
}
use kubecp.Http.{Exit, Request, TokenClaims}
use kubecp.Middleware.Rbac.{require_role}
use kubecp.Middleware.Rbac.Laws.{Holds, require_role-Guarded}
use kubecp.Middleware.Oidc.{
  Idp, Environment, AuthWorld, RawClaims, is_configured, bearer_token, effective_claims,
}
use kubecp.Middleware.Oidc.Laws.{Admitted, refused, served, oidc_auth-Admitted}
use kubecp.Powerdns.{Network, World, Client}
use kubecp.Api.Dns.Data.{Platform, View, Settings}
use kubecp.Api.Dns.Handlers.Routes.{Endpoint, dns_handler, dns_api}

abbrev roles : List String
roles = "admin" ∷ "user" ∷ []

module _ (p : Platform) (net : Network) (c : Client) (h : Settings) (idp : Idp)
    (r : Request Endpoint) (w : AuthWorld idp (World net.Remote)) where
  -- The claims that the handler runs on are those of a verified token, and hold a role.
  pub record Genuine (claims : TokenClaims) : Type 0 where
    pub verifier : idp.Verifier
    pub token : String
    pub remote : idp.Remote
    pub id_token : idp.IdToken
    pub raw : RawClaims
    pub presented : bearer_token (r.header "Authorization") ≡ some token
    pub verified : (idp.verify verifier token remote).0 ≡ some id_token
    pub read : idp.claims id_token ≡ some raw
    pub same : claims ≡ effective_claims raw (r.header "X-Impersonate-User")
    pub role : Holds ("admin" ∷ "user" ∷ []) claims

  abbrev pub Reached : World net.Remote → Type 0
  Reached after =
      (after ≡ w.inner)
      ⊎ ((claims : TokenClaims) × Genuine claims
          × (after ≡ (dns_handler p net c h (record r { claims = some claims }) w.inner).1))

  module _ (rc : RawClaims) where
    abbrev claims' : TokenClaims
    claims' = effective_claims rc (r.header "X-Impersonate-User")

    abbrev r' : Request Endpoint
    r' = record r { claims = some claims' }

    abbrev guarded : Request Endpoint → World net.Remote → Exit View × World net.Remote
    guarded = require_role roles (dns_handler p net c h)

    role_check :
        (inner : World net.Remote)
        → (((guarded r' inner).1 ≡ inner)
            ⊎ (Holds roles claims' × ((guarded r' inner).1 ≡ (dns_handler p net c h r' inner).1)))
    role_check inner = elim (require_role-Guarded roles (dns_handler p net c h) r' inner) [
      | inl (e, _) ↦ cc
      | inr (c', e, inl (holds, run)) ↦
          inr (subst (Holds roles) (some-injective _ _ (sym e)) holds, ap (λ o. o.1) run)
      | inr (c', e, inr (_, denied)) ↦ inl (ap (λ o. o.1) denied)
    ]

  reached :
      (out : Exit View × AuthWorld idp (World net.Remote))
      → Admitted idp (require_role roles (dns_handler p net c h)) r w out
      → Reached out.1.inner
  reached out (refused status code message w' e same) = inl (ap (λ o. o.1.inner) e ∙ same)
  reached out (served v token remote id rc w' t ver read same e) = elim (role_check rc w'.inner) [
    | inl kept ↦ inl (ap (λ o. o.1.inner) e ∙ kept ∙ same)
    | inr (holds, run) ↦ inr (
      claims' rc,
      record {
        verifier = v;
        token = token;
        remote = remote;
        id_token = id;
        raw = rc;
        presented = t;
        verified = ver;
        read = read;
        same = refl;
        role = holds;
      },
      ap (λ o. o.1.inner) e ∙ run ∙ ap (λ s. (dns_handler p net c h (r' rc) s).1) same,
    )
  ]

  -- With OIDC configured and off the health paths, a request to `/api/dns` reaches the PowerDNS client
  -- only with a token that the identity provider verified and whose effective claims hold the role
  -- admin or user, and then the handler runs on those claims. Any other request leaves the server and
  -- the traffic as they were.
  pub dns_api-Reached :
      (env : Environment)
      → is_configured env ≡ true
      → r.path ≢ "/healthz"
      → r.path ≢ "/readyz"
      → Reached (dns_api p net c h idp env r w).1.inner
  unfolding dns_api
  dns_api-Reached env conf a b =
      reached _
        (oidc_auth-Admitted idp env (require_role roles (dns_handler p net c h)) r w conf a b)
