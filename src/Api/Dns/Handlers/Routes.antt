-- ===== src/Api/Dns/Handlers/Routes.antt =====
-- The routes of dns.go and the guards in front of them in api/router.go.
use kubecp.Common.{String, Option, [], ◌∷◌}
use kubecp.Http.{Response, Exit, Handler, Request, TokenClaims, run}
use kubecp.Middleware.Rbac.{require_role}
use kubecp.Middleware.Oidc.{Idp, Environment, AuthWorld, oidc_auth}
use kubecp.Powerdns.{Network, World, Client}
use kubecp.Api.Dns.Data.{
  Platform, View, Settings, CreateZoneRequest, RecordRequest, SecondaryConfigRequest,
}
use kubecp.Api.Dns.Handlers.Load.{Effect}
use kubecp.Api.Dns.Handlers.Zones.{
  handle_list_zones, handle_create_zone, handle_get_zone, handle_delete_zone,
}
use kubecp.Api.Dns.Handlers.Records.{
  handle_list_records, handle_create_record, handle_update_record, handle_delete_record,
}
use kubecp.Api.Dns.Handlers.Secondary.{handle_get_secondary_config, handle_update_secondary_config}

-- The routes below `/zones/{zoneID}`, with the decoded body.
pub data ZoneAction : Type 0 where
  get_zone delete_zone list_records get_secondary_config : ZoneAction
  create_record update_record delete_record : Option RecordRequest → ZoneAction
  update_secondary_config : Option SecondaryConfigRequest → ZoneAction

pub data Endpoint : Type 0 where
  list_zones : Endpoint
  create_zone : Option CreateZoneRequest → Endpoint
  at_zone : String → ZoneAction → Endpoint

module _ (p : Platform) (net : Network) (c : Client) where
  unfoldable pub serve_zone : Option TokenClaims → String → ZoneAction → Effect net (Response View)
  serve_zone claims id get_zone = handle_get_zone net c claims id
  serve_zone claims id delete_zone = handle_delete_zone net c claims id
  serve_zone claims id list_records = handle_list_records p net c claims id
  serve_zone claims id (create_record body) = handle_create_record p net c claims id body
  serve_zone claims id (update_record body) = handle_update_record p net c claims id body
  serve_zone claims id (delete_record body) = handle_delete_record p net c claims id body
  serve_zone claims id get_secondary_config = handle_get_secondary_config p net c claims id
  serve_zone claims id (update_secondary_config body) =
      handle_update_secondary_config p net c claims id body

module _ (p : Platform) (net : Network) (c : Client) (h : Settings) where
  -- `RegisterRoutes`
  unfoldable pub serve : Option TokenClaims → Endpoint → Effect net (Response View)
  serve claims list_zones = handle_list_zones net c claims
  serve claims (create_zone body) = handle_create_zone net c h claims body
  serve claims (at_zone id action) = serve_zone p net c claims id action

  unfoldable pub dns_handler : Handler Endpoint View (World net.Remote)
  dns_handler r w = run (serve r.claims r.endpoint) w

  -- The route `/api/dns` of `NewRouter`, for a configured client.
  unfoldable pub dns_api :
      (idp : Idp)
      → Environment
      → Request Endpoint
      → AuthWorld idp (World net.Remote)
      → Exit View × AuthWorld idp (World net.Remote)
  dns_api idp env = oidc_auth idp env (require_role ("admin" ∷ "user" ∷ []) dns_handler)
