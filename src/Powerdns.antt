-- ===== src/Powerdns.antt =====
-- panel-core/internal/powerdns/client.go: the client of the PowerDNS REST API. The network, the
-- server behind it and the JSON decoder are a parameter; every request that leaves is recorded.
mod Data
pub mod Traffic
pub use Data.*
use kubecp.Common.{
  ℕ, String, ◌<>◌, Bool, true, false, not, ◌&&◌, ◌||◌, Option, none, some, List, [], ◌∷◌, ◌++◌, ltb,
  leb, ◌==◌, if◌then◌else◌,
}
use kubecp.Common.Text.{is_empty, trim_slashes, show_nat}
use kubecp.Common.Exec.{
  Result, ok, err, Exec, pure, raise, lift, ◌>>=◌, ◌>>◌, on_error, fail_if, resume, convert,
}

-- `NewClient`
unfoldable pub new_client : String → String → Client
new_client base_url api_key = record {
  base_url = trim_slashes base_url;
  api_key = api_key;
  server_id = "localhost";
}

-- `Configured`
unfoldable pub configured : Client → Bool
configured c = not (is_empty c.base_url) && not (is_empty c.api_key)

-- The URL of a path below the server's.
abbrev pub url_of : Client → String → String
url_of c path = c.base_url <> "/api/v1/servers/" <> c.server_id <> path

-- The code tests a status by hand where any 2xx is accepted.
abbrev is_2xx : ℕ → Bool
is_2xx status = leb 200 status && ltb status 300

abbrev api_error : Reply → String → ClientError
api_error resp message = api (record { status_code = resp.status_code; message = message })

-- `checkResponse`
unfoldable pub check_response : Reply → Result ClientError Reply
check_response resp =
    if is_2xx resp.status_code
    then ok resp
    else err (api_error resp (if is_empty resp.body then resp.status else resp.body))

-- The end of a call whose reply is drained: `good` tells the accepted statuses.
abbrev accept : (ℕ → Bool) → Reply → Result ClientError (Unit {0})
accept good resp = if good resp.status_code then ok tt else err (api_error resp resp.status)

abbrev decoded : {A : Type 0} → String → Result String A → Result ClientError A
decoded what (ok a) = ok a
decoded what (err e) = err (decode what e)

module _ (net : Network) where
  abbrev pub Call : Type 0 → Type 0
  Call A = Exec ClientError (World net.Remote) A

  -- One exchange. The request is on record whatever comes back.
  unfoldable pub exchange : ApiRequest → Call Reply
  exchange req w =
      let (answer, remote') = net.send req w.remote in
      convert transport (answer, record { remote = remote'; sent = w.sent ++ req ∷ [] })

  -- `doRequest`
  unfoldable pub do_request : Client → Method → String → Option Payload → Call Reply
  do_request c method path payload = elim (net.url_error method (url_of c path)) [
    | some e ↦ raise (create_request e)
    | none ↦
        exchange
          (record { method = method; url = url_of c path; api_key = c.api_key; payload = payload })
  ]

  module _ (c : Client) where
    unfoldable pub list_zones : Call (List Zone)
    list_zones = do
      resp ← do_request c get "/zones" none
      good ← lift (check_response resp)
      lift (decoded "decode zones" (net.decode_zones good.body))

    unfoldable pub get_zone : String → Call Zone
    get_zone zone_id = do
      resp ← do_request c get ("/zones/" <> zone_id) none
      good ← lift (check_response resp)
      lift (decoded "decode zone" (net.decode_zone good.body))

    unfoldable pub create_zone : Zone → Call Zone
    create_zone zone = do
      resp ← do_request c post "/zones" (some (zone_body zone))
      good ← lift (check_response resp)
      lift (decoded "decode created zone" (net.decode_zone good.body))

    unfoldable pub delete_zone : String → Call (Unit {0})
    delete_zone zone_id = do
      resp ← do_request c delete ("/zones/" <> zone_id) none
      lift (accept (λ s. s == 204 || s == 200) resp)

    unfoldable pub patch_zone : String → ZonePatch → Call (Unit {0})
    patch_zone zone_id p = do
      resp ← do_request c patch ("/zones/" <> zone_id) (some (patch_body p))
      lift (accept (λ s. s == 204 || s == 200) resp)

    unfoldable pub notify_zone : String → Call (Unit {0})
    notify_zone zone_id = do
      resp ← do_request c put ("/zones/" <> zone_id <> "/notify") none
      lift (accept (λ s. s == 200) resp)

    unfoldable pub update_zone_metadata : String → String → List String → Call (Unit {0})
    update_zone_metadata zone_id kind metadata = do
      resp ←
          do_request c put ("/zones/" <> zone_id <> "/metadata/" <> kind)
            (some (metadata_body kind metadata))
      lift (accept is_2xx resp)
