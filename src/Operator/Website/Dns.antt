-- ===== src/Operator/Website/Dns.antt =====
-- `reconcileDNSZone` of website_controller.go.
pub mod Laws
use kubecp.Common.{
  ℕ, String, ◌<>◌, Bool, true, false, not, ◌||◌, ◌==◌, Option, none, some, List, [], ◌∷◌,
  if◌then◌else◌,
}
use kubecp.Common.Text.{is_empty, show_nat}
use kubecp.Common.Exec.{Exec, pure, raise, on_error, ◌>>=◌}
use kubecp.Operator.Data.{Website}
use kubecp.Operator.Kube.{
  Kube, Step, failed, panicked, wrap, writing, dns_call, DnsRecordSet, NewZone, DnsRequest,
}

-- `WebsiteReconciler`
pub record Reconciler : Type 0 where
  pub pdns_base_url : String
  pub pdns_api_key : String
  pub external_ip : String

-- The record sets of a new zone.
unfoldable pub zone_rrsets : String → String → List DnsRecordSet
zone_rrsets ip zone =
    if is_empty ip
    then []
    else (record { name = zone; type = "A"; content = ip }
        ∷ record { name = "www." <> zone; type = "CNAME"; content = zone }
        ∷ record { name = "mail." <> zone; type = "A"; content = ip }
        ∷ record { name = zone; type = "MX"; content = "10 mail." <> zone }
        ∷ [])

unfoldable pub new_zone : Reconciler → String → NewZone
new_zone r zone = record {
  name = zone;
  kind = "Native";
  nameservers = ("ns1." <> zone) ∷ [];
  rrsets = zone_rrsets r.external_ip zone;
}

abbrev pub zones_url : Reconciler → String
zones_url r = r.pdns_base_url <> "/api/v1/servers/localhost/zones"

abbrev pub lookup_request : Reconciler → String → DnsRequest
lookup_request r zone = record {
  url = zones_url r <> "/" <> zone;
  api_key = r.pdns_api_key;
  body = none;
}

abbrev pub create_request : Reconciler → String → DnsRequest
create_request r zone = record {
  url = zones_url r;
  api_key = r.pdns_api_key;
  body = some (new_zone r zone);
}

module _ (k : Kube) where
  -- A request is built with its error dropped: a URL that is refused leaves a nil request, on which
  -- the next line panics.
  unfoldable pub call : DnsRequest → Step k ℕ
  call req = if k.url_ok req.url then writing k (dns_call req) (k.send req) else raise panicked

  module _ (r : Reconciler) where
    abbrev pub created : ℕ → Step k (Unit {0})
    created status =
        if status == 201 || status == 409
        then pure tt
        else raise (
            failed (record {
              is_not_found = false;
              text = "PowerDNS create zone returned " <> show_nat status;
            }))

    unfoldable pub create_zone : String → Step k (Unit {0})
    create_zone zone =
        on_error (wrap "failed to create DNS zone") (call (create_request r zone)) >>= created

    unfoldable pub ensure_zone : String → Step k (Unit {0})
    ensure_zone zone = do
      status ← on_error (wrap "PowerDNS API unreachable") (call (lookup_request r zone))
      if status == 200 then pure tt else create_zone zone

    unfoldable pub reconcile_dns_zone : Website → Step k (Unit {0})
    reconcile_dns_zone site =
        if is_empty r.pdns_base_url || is_empty r.pdns_api_key || is_empty site.spec.primary_domain
        then pure tt
        else ensure_zone (site.spec.primary_domain <> ".")
