-- ===== src/Api/Dns/Handlers/Zones.antt =====
-- The zone handlers of dns.go.
use kubecp.Common.{String, ◌<>◌, false, Option, none, some, [], pos, if◌then◌else◌}
use kubecp.Common.Text.{is_empty, trim_space}
use kubecp.Common.Exec.{pure, raise, on_error, ignore, fail_if, ◌>>=◌, ◌>>◌}
use kubecp.Http.{
  Response, no_body, Exit, reply, panic, TokenClaims, write_bad_request, write_conflict, write_json,
}
use kubecp.Powerdns.{
  Network, Client, ClientError, Zone, list_zones, create_zone, delete_zone, notify_zone,
}
use kubecp.Api.Dns.Data.{View, zone_view, zones_view, Settings, CreateZoneRequest}
use kubecp.Api.Dns.Names.{ensure_trailing_dot}
use kubecp.Api.Dns.Access.{view_of, listed_zones}
use kubecp.Api.Dns.Defaults.{build_default_records}
use kubecp.Api.Dns.Handlers.Load.{Effect, load_zone, body_of, failed, has_status}

-- `claims.Username`
unfoldable pub username_of : (net : Network) → Option TokenClaims → Effect net String
username_of net none = raise panic
username_of net (some claims) = pure claims.username

abbrev create_error : String → ClientError → Exit View
create_error name e =
    if has_status 409 e
    then reply (write_conflict ("Zone already exists: " <> name) none)
    else failed "Failed to create zone: " e

-- The zone that `CreateZone` asks the server for.
new_zone : Settings → String → String → String → Zone
new_zone h zone_name kind account = record {
  id = "";
  name = zone_name;
  kind = if is_empty kind then "Native" else kind;
  dnssec = false;
  serial = pos 0;
  notified_serial = pos 0;
  masters = [];
  account = account;
  rrsets = build_default_records h zone_name;
}

module _ (net : Network) (c : Client) where
  unfoldable pub handle_list_zones : Option TokenClaims → Effect net (Response View)
  handle_list_zones claims = do
    zones ← on_error (failed "Failed to list DNS zones: ") (list_zones net c)
    elim (listed_zones claims zones) [
      | none ↦ raise panic
      | some shown ↦ pure (write_json 200 (zones_view shown))
    ]

  unfoldable pub handle_create_zone :
      Settings → Option TokenClaims → Option CreateZoneRequest → Effect net (Response View)
  unfolding new_zone username_of
  handle_create_zone h claims body = do
    req ← body_of net body
    let name = trim_space req.name
    fail_if (is_empty name) (reply (write_bad_request "Zone name is required" none))
    account ← username_of net claims
    created ←
        on_error (create_error name)
          (create_zone net c (new_zone h (ensure_trailing_dot name) req.kind account))
    ignore (notify_zone net c created.id)
    pure (write_json 201 (zone_view (view_of created)))

  unfoldable pub handle_get_zone : Option TokenClaims → String → Effect net (Response View)
  handle_get_zone claims zone_id = do
    zone ← load_zone net c claims zone_id
    pure (write_json 200 (zone_view (view_of zone)))

  unfoldable pub handle_delete_zone : Option TokenClaims → String → Effect net (Response View)
  handle_delete_zone claims zone_id = do
    load_zone net c claims zone_id
    on_error (failed "Failed to delete zone: ") (delete_zone net c zone_id)
    pure (record { status = 204; body = no_body })
