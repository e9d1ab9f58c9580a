-- ===== src/Api/Dns/Tests/Handlers.antt =====
-- Calls of the handlers at concrete inputs.
use kubecp.Common.{String, ◌≡◌, refl, true, some, none, List, [], ◌∷◌, pos, map, ◌≢◌, arith, eq_iff}
use kubecp.Common.Text.{trim_slashes, has_suffix, to_upper}
use kubecp.Common.Exec.{ok, err, pure, raise, lift, on_error, ignore, fail_if, ◌>>=◌, ◌>>◌}
use kubecp.Http.{reply, write_json, write_forbidden}
use kubecp.Powerdns.{
  ApiRequest, get, put, patch, Method, do_request, exchange, check_response, get_zone, patch_zone,
  notify_zone,
}
use kubecp.Powerdns.Traffic.{Sent}
use kubecp.Middleware.Rbac.{has_role}
use kubecp.Api.Dns.Data.{record_view, SecondaryConfigRequest}
use kubecp.Api.Dns.Names.{ensure_trailing_dot, resolve_record_name}
use kubecp.Api.Dns.Content.{validate_record_type, validate_record_content, validate_ipv4}
use kubecp.Api.Dns.Access.{can_access_zone}
use kubecp.Api.Dns.Handlers.{
  handle_create_record, existing_records, has_content, effective_ttl, checked_name, view_of_record,
  first_invalid,
}
use kubecp.Api.Dns.Handlers.Load.{load_zone, authorize, body_of}
use kubecp.Api.Dns.Handlers.Routes.{ZoneAction, Endpoint, serve_zone, dns_api}
use kubecp.Api.Dns.Handlers.Isolation.{Authorized}
use kubecp.Api.Dns.Handlers.Tenants.{serve_zone-Authorized}
use kubecp.Api.Dns.Handlers.Guarded.{Reached, dns_api-Reached}
use kubecp.Middleware.Oidc.{is_configured}
use kubecp.Middleware.Sample.{provider, environment, request, waiting}
use kubecp.Api.Dns.Tests.Sample.{
  settings, server, fresh, client, alice, mallory, platform, new_address,
}

-- What a run has sent, by method.
abbrev methods : List ApiRequest → List Method
methods = map (λ r. r.method)

-- Alice adds an address to her zone: three calls, and the TTL that was not positive is 3600.
create_run :
    let (r, w) =
      handle_create_record platform
        (server "alice")
        client
        (some alice)
        "example.com."
        (some new_address)
        fresh in
    (r
      ≡ ok (
          write_json 201
            (record_view (view_of_record "www.example.com." "A" (pos 3600) "10.0.0.2"))))
    × (methods w.sent ≡ get ∷ patch ∷ put ∷ [])
unfolding handle_create_record load_zone authorize body_of checked_name get_zone patch_zone
    notify_zone do_request exchange check_response ◌>>=◌ ◌>>◌ pure raise lift on_error ignore
    fail_if can_access_zone has_role to_upper validate_record_type validate_record_content
    validate_ipv4 resolve_record_name ensure_trailing_dot has_suffix existing_records has_content
    effective_ttl
create_run = (refl, refl)

-- Mallory is refused, and only the zone was read.
refused_run :
    let (r, w) =
      handle_create_record platform
        (server "alice")
        client
        (some mallory)
        "example.com."
        (some new_address)
        fresh in
    (r ≡ err (reply (write_forbidden "Access denied"))) × (methods w.sent ≡ get ∷ [])
unfolding handle_create_record load_zone authorize get_zone do_request exchange check_response ◌>>=◌
    ◌>>◌ pure raise lift on_error fail_if can_access_zone has_role
refused_run = (refl, refl)

serve_zone-Authorized_example :
    Sent
      (Authorized (server "alice") client (some alice) "example.com." fresh)
      (serve_zone platform
        (server "alice")
        client
        (some alice)
        "example.com."
        (ZoneAction.create_record (some new_address))
        fresh).1
serve_zone-Authorized_example =
    serve_zone-Authorized platform (server "alice") client (some alice) "example.com."
      (ZoneAction.create_record (some new_address)) fresh refl

abbrev secondary : SecondaryConfigRequest
secondary = record { masters = "10.0.0.2" ∷ []; allow_axfr = []; notify_targets = [] }

one_master : first_invalid platform ("10.0.0.2" ∷ []) ≡ none
unfolding first_invalid
one_master = refl

no_master : first_invalid platform [] ≡ none
unfolding first_invalid
no_master = refl

configured : is_configured environment ≡ true
unfolding is_configured trim_slashes
configured = refl

not_healthz : ◌≢◌ {A = String} "/api/dns/zones" "/healthz"
not_healthz = ground (arith, eq_iff "/api/dns/zones" "/healthz")

not_readyz : ◌≢◌ {A = String} "/api/dns/zones" "/readyz"
not_readyz = ground (arith, eq_iff "/api/dns/zones" "/readyz")

dns_api-Reached_example :
    Reached platform
      (server "alice")
      client
      settings
      provider
      (request Endpoint.list_zones)
      (waiting fresh)
      (dns_api platform
        (server "alice")
        client
        settings
        provider
        environment
        (request Endpoint.list_zones)
        (waiting fresh)).1.inner
dns_api-Reached_example =
    dns_api-Reached platform (server "alice") client settings provider (request Endpoint.list_zones)
      (waiting fresh) environment configured not_healthz not_readyz
