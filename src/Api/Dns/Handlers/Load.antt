-- ===== src/Api/Dns/Handlers/Load.antt =====
-- What the handlers of dns.go that name a zone begin with: the zone is fetched and the claims are
-- checked against it.
use kubecp.Common.{ℕ, String, ◌<>◌, Bool, false, not, Option, none, some, ◌==◌, if◌then◌else◌}
use kubecp.Common.Exec.{Exec, pure, raise, on_error, fail_if, ◌>>=◌, ◌>>◌}
use kubecp.Http.{
  Exit, reply, panic, TokenClaims, write_bad_request, write_internal_error, write_not_found,
  write_forbidden,
}
use kubecp.Powerdns.{
  Network, World, Client, ClientError, create_request, transport, decode, api, error_text, Zone,
  get_zone,
}
use kubecp.Api.Dns.Data.{View}
use kubecp.Api.Dns.Access.{can_access_zone}

-- `err.(*powerdns.APIError)` with this status
unfoldable pub has_status : ℕ → ClientError → Bool
has_status s (create_request e) = false
has_status s (transport e) = false
has_status s (decode what e) = false
has_status s (api e) = e.status_code == s

unfoldable pub zone_error : ClientError → Exit View
unfolding has_status
zone_error e =
    if has_status 404 e
    then reply (write_not_found "Zone not found")
    else reply (write_internal_error ("Failed to get zone: " <> error_text e))

abbrev pub failed : String → ClientError → Exit View
failed what e = reply (write_internal_error (what <> error_text e))

module _ (net : Network) where
  abbrev pub Effect : Type 0 → Type 0
  Effect A = Exec (Exit View) (World net.Remote) A

  -- `if !canAccessZone(claims, zone) { … }`
  unfoldable pub authorize : Option TokenClaims → Zone → Effect (Unit {0})
  authorize claims zone = elim (can_access_zone claims zone) [
    | none ↦ raise panic
    | some good ↦ fail_if (not good) (reply (write_forbidden "Access denied"))
  ]

  unfoldable pub load_zone : Client → Option TokenClaims → String → Effect Zone
  load_zone c claims zone_id = do
    zone ← on_error zone_error (get_zone net c zone_id)
    authorize claims zone
    pure zone

  -- `json.NewDecoder(r.Body).Decode(&req)`
  unfoldable pub body_of : {A : Type 0} → Option A → Effect A
  body_of none = raise (reply (write_bad_request "Invalid request body" none))
  body_of (some a) = pure a
