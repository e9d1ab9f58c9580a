-- ===== src/Api/Dns/Tests/Names.antt =====
-- Names, contents and default records at concrete inputs.
use kubecp.Common.{
  String, ◌<>◌, ◌≡◌, ◌≢◌, refl, ◌↔◌, true, false, some, List, [], ◌∷◌, Pairs, arith, eq_iff,
}
use kubecp.Common.Text.{has_suffix}
use kubecp.Common.Exec.{ok, err}
use kubecp.Middleware.Rbac.Laws.{HasRole}
use kubecp.Api.Dns.Data.{ZoneResponse}
use kubecp.Api.Dns.Names.{ensure_trailing_dot, resolve_record_name}
use kubecp.Api.Dns.Names.Laws.{InZone, resolve_record_name-InZone, resolve_record_name_fails_iff}
use kubecp.Api.Dns.Content.{hostname_matches}
use kubecp.Api.Dns.Access.{listed_zones}
use kubecp.Api.Dns.Access.Laws.{Picks, listed_zones-Picks}
use kubecp.Api.Dns.Defaults.{build_default_records}
use kubecp.Api.Dns.Defaults.Laws.{Differ, build_default_records-Differ}
use kubecp.Api.Dns.Tests.Sample.{alice, zone_of, settings}

abbrev same : String → String
same s = s

names_resolve :
    (resolve_record_name same "@" "example.com" ≡ ok "example.com.")
    × (resolve_record_name same "www" "example.com." ≡ ok "www.example.com.")
    × (resolve_record_name same "www.example.com" "example.com" ≡ ok "www.example.com.")
    × (resolve_record_name same "evil.org." "example.com"
        ≡ err "record name evil.org. is outside zone example.com")
unfolding resolve_record_name ensure_trailing_dot has_suffix
names_resolve = (refl, refl, refl, refl)

www_resolves : resolve_record_name same "www" "example.com" ≡ ok "www.example.com."
unfolding resolve_record_name ensure_trailing_dot has_suffix
www_resolves = refl

resolve_record_name-InZone_example : InZone "www.example.com." "example.com"
resolve_record_name-InZone_example =
    resolve_record_name-InZone same "www" "example.com" www_resolves

resolve_record_name_fails_iff_example :
    (resolve_record_name same "evil.org." "example.com"
      ≡ err ("record name " <> "evil.org." <> " is outside zone " <> "example.com"))
    ↔ ((has_suffix "evil.org." "." ≡ true) × (¬ InZone "evil.org." "example.com"))
resolve_record_name_fails_iff_example = resolve_record_name_fails_iff same "evil.org." "example.com"

hostnames :
    (hostname_matches "mail.example-1.com." ≡ true)
    × (hostname_matches "localhost" ≡ false)
    × (hostname_matches "-a.com" ≡ false)
    × (hostname_matches "a b.com" ≡ false)
unfolding hostname_matches
hostnames = (refl, refl, refl, refl)

mail_matches : hostname_matches "mail.example.com" ≡ true
unfolding hostname_matches
mail_matches = refl

listed_zones-Picks_example :
    (l : List ZoneResponse) × (listed_zones (some alice) (zone_of "alice" ∷ zone_of "bob" ∷ [])
      ≡ some l)
    × Picks alice (zone_of "alice" ∷ zone_of "bob" ∷ []) l
listed_zones-Picks_example = listed_zones-Picks alice (zone_of "alice" ∷ zone_of "bob" ∷ [])

alice_named : ◌≢◌ {A = String} "alice" ""
alice_named = ground (arith, eq_iff "alice" "")

alice_plain : ¬ HasRole (some alice) "admin"
alice_plain = λ h. ground (arith, eq_iff "user" "admin")

dotted : has_suffix "example.com." "." ≡ true
unfolding has_suffix
dotted = refl

build_default_records-Differ_example : Pairs Differ (build_default_records settings "example.com.")
build_default_records-Differ_example = build_default_records-Differ settings "example.com."
