-- ===== src/Api/Dns/Handlers/Secondary.antt =====
-- The handlers of dns.go for secondary servers.
use kubecp.Common.{String, ◌<>◌, Option, none, some, List, [], ◌∷◌}
use kubecp.Common.Exec.{pure, raise, on_error, ignore, ◌>>=◌, ◌>>◌}
use kubecp.Http.{Response, reply, TokenClaims, write_bad_request, write_json}
use kubecp.Powerdns.{Network, Client, update_zone_metadata, notify_zone}
use kubecp.Api.Dns.Data.{Platform, View, secondary_view, SecondaryConfigRequest}
use kubecp.Api.Dns.Handlers.Load.{Effect, load_zone, body_of, failed}

-- The first text that `net.ParseIP` refuses.
unfoldable pub first_invalid : Platform → List String → Option String
first_invalid p [] = none
first_invalid p (ip ∷ rest) = elim (p.parse_ip ip) [
  | none ↦ some ip
  | some _ ↦ first_invalid p rest
]

module _ (p : Platform) (net : Network) (c : Client) where
  unfoldable pub check_ips : String → List String → Effect net (Unit {0})
  check_ips what ips = elim (first_invalid p ips) [
    | none ↦ pure tt
    | some ip ↦ raise (reply (write_bad_request (what <> ip) none))
  ]

  -- `if len(req.AllowAXFR) > 0 { … }`
  unfoldable pub allow_axfr : String → List String → Effect net (Unit {0})
  allow_axfr zone_id [] = pure tt
  allow_axfr zone_id (ip ∷ ips) =
      on_error (failed "Failed to update AXFR config: ")
        (update_zone_metadata net c zone_id "ALLOW-AXFR-FROM" (ip ∷ ips))

  unfoldable pub handle_get_secondary_config :
      Option TokenClaims → String → Effect net (Response View)
  handle_get_secondary_config claims zone_id = do
    zone ← load_zone net c claims zone_id
    pure (
        write_json 200 (
          secondary_view (record {
            kind = zone.kind;
            masters = zone.masters;
            allow_axfr = [];
            notify_targets = [];
          })))

  unfoldable pub handle_update_secondary_config :
      Option TokenClaims → String → Option SecondaryConfigRequest → Effect net (Response View)
  handle_update_secondary_config claims zone_id body = do
    zone ← load_zone net c claims zone_id
    req ← body_of net body
    check_ips "Invalid IP in allowAxfrIps: " req.allow_axfr
    check_ips "Invalid IP in masters: " req.masters
    allow_axfr zone_id req.allow_axfr
    ignore (notify_zone net c zone_id)
    pure (
        write_json 200 (
          secondary_view (record {
            kind = zone.kind;
            masters = req.masters;
            allow_axfr = req.allow_axfr;
            notify_targets = [];
          })))
