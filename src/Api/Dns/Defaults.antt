-- ===== src/Api/Dns/Defaults.antt =====
-- `buildDefaultRecords` of dns.go: the record sets of a new zone.
pub mod Laws
use kubecp.Common.{ℤ, pos, String, ◌<>◌, Bool, true, false, List, [], ◌∷◌, ◌++◌, map, if◌then◌else◌}
use kubecp.Common.Text.{is_empty}
use kubecp.Powerdns.{RrSet, Record}
use kubecp.Api.Dns.Data.{Settings}
use kubecp.Api.Dns.Names.{ensure_trailing_dot}

-- A record set as the literals give it: a TTL of 3600, and no change type.
abbrev rrset : String → String → List String → RrSet
rrset name type contents = record {
  name = name;
  type = type;
  ttl = pos 3600;
  change_type = "";
  records = map (λ c. record { content = c; disabled = false }) contents;
  comments = [];
}

soa_content : String → String
soa_content zone = "ns1." <> zone <> " hostmaster." <> zone <> " 1 10800 3600 604800 3600"

-- The sets that point at the external address.
abbrev address_sets : Settings → String → List RrSet
address_sets h zone =
    rrset zone "A" (h.external_ip ∷ [])
    ∷ rrset ("www." <> zone) "A" (h.external_ip ∷ [])
    ∷ rrset ("ns1." <> zone) "A" (h.external_ip ∷ [])
    ∷ rrset ("ns2." <> zone) "A" (h.external_ip ∷ [])
    ∷ []

mail_target : Settings → String → String
mail_target h zone =
    if is_empty h.mail_host then "mail." <> zone else ensure_trailing_dot h.mail_host

-- The mail and text sets at the end.
abbrev closing_sets : Settings → String → List RrSet
closing_sets h zone =
    rrset zone "MX" (("10 " <> mail_target h zone) ∷ [])
    ∷ rrset zone "TXT" ("\"v=spf1 mx a ~all\"" ∷ [])
    ∷ rrset ("default._domainkey." <> zone) "TXT"
        ("\"v=DKIM1; k=rsa; p=REPLACE_WITH_DKIM_KEY\"" ∷ [])
    ∷ []

unfoldable pub build_default_records : Settings → String → List RrSet
unfolding soa_content mail_target
build_default_records h zone =
    rrset zone "SOA" (soa_content zone ∷ [])
      ∷ rrset zone "NS" (("ns1." <> zone) ∷ ("ns2." <> zone) ∷ [])
      ∷ (if is_empty h.external_ip then [] else address_sets h zone)
    ++ closing_sets h zone
