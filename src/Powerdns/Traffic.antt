-- ===== src/Powerdns/Traffic.antt =====
-- On the requests that panel-core/internal/powerdns/client.go sends.
use kubecp.Common.{
  String, ◌<>◌, Option, none, some, inl, inr, List, [], ◌∷◌, ◌++◌, All, All-append, Option-cases,
}
use kubecp.Common.Exec.{
  Result, ok, err, Keeps, Keeps-bind, Keeps-lift, Keeps-raise, lift, ◌>>=◌, convert,
}
use kubecp.Powerdns.{
  Network, World, Client, Method, Payload, ApiRequest, Zone, ZonePatch, get, post, put, patch,
  delete, zone_body, patch_body, metadata_body, url_of, do_request, list_zones, get_zone,
  create_zone, delete_zone, patch_zone, notify_zone, update_zone_metadata, exchange, transport,
  Reply, ClientError,
}

-- The request that a call of `doRequest` sends.
abbrev pub request_of : Client → Method → String → Option Payload → ApiRequest
request_of c m path payload = record {
  method = m;
  url = url_of c path;
  api_key = c.api_key;
  payload = payload;
}

-- Every request on record has `P`.
abbrev pub Sent : {Remote : Type 0} → (ApiRequest → Type 0) → World Remote → Type 0
Sent P w = All P w.sent

module _ (net : Network) (P : ApiRequest → Type 0) where
  exchange-Keeps : (req : ApiRequest) → P req → Keeps (Sent P) (exchange net req)
  unfolding exchange
  exchange-Keeps req p = record { at = λ w h. kept w (net.send req w.remote) h }
    where
      kept :
          (w : World net.Remote) (s : Result String Reply × net.Remote)
          → All P w.sent
          → Sent P
              (convert {W = World net.Remote} transport
                (s.0, record { remote = s.1; sent = w.sent ++ req ∷ [] })).1
      kept w (ok a, r) h = All-append P w.sent (req ∷ []) h (p, tt)
      kept w (err a, r) h = All-append P w.sent (req ∷ []) h (p, tt)

  do_request-Keeps :
      (c : Client) (m : Method) (path : String) (payload : Option Payload)
      → P (request_of c m path payload)
      → Keeps (Sent P) (do_request net c m path payload)
  unfolding do_request
  do_request-Keeps c m path payload p = elim (Option-cases (net.url_error m (url_of c path))) [
    | inl e ↦ rw (e, do_request) (exchange-Keeps (request_of c m path payload) p)
    | inr (t, e) ↦ rw (e, do_request) (Keeps-raise _)
  ]

  -- the two shapes of a call: a reply that is checked and decoded, and one that is drained
  decoding-Keeps :
      {A : Type 0} (c : Client) (m : Method) (path : String) (payload : Option Payload)
      (f : Reply → Result ClientError Reply) (g : Reply → Result ClientError A)
      → P (request_of c m path payload)
      → Keeps
          (Sent P)
          (do_request net c m path payload >>= λ resp. lift (f resp) >>= λ good. lift (g good))
  decoding-Keeps c m path payload f g p =
      Keeps-bind _ _ (do_request-Keeps c m path payload p)
        (λ resp. Keeps-bind _ _ (Keeps-lift (f resp)) (λ good. Keeps-lift (g good)))

  draining-Keeps :
      (c : Client) (m : Method) (path : String) (payload : Option Payload)
      (f : Reply → Result ClientError (Unit {0}))
      → P (request_of c m path payload)
      → Keeps (Sent P) (do_request net c m path payload >>= λ resp. lift (f resp))
  draining-Keeps c m path payload f p =
      Keeps-bind _ _ (do_request-Keeps c m path payload p) (λ resp. Keeps-lift (f resp))

  module _ (c : Client) where
    pub list_zones-Keeps : P (request_of c get "/zones" none) → Keeps (Sent P) (list_zones net c)
    unfolding list_zones
    list_zones-Keeps p = decoding-Keeps c get "/zones" none _ _ p

    pub get_zone-Keeps :
        (id : String)
        → P (request_of c get ("/zones/" <> id) none)
        → Keeps (Sent P) (get_zone net c id)
    unfolding get_zone
    get_zone-Keeps id p = decoding-Keeps c get ("/zones/" <> id) none _ _ p

    pub create_zone-Keeps :
        (z : Zone)
        → P (request_of c post "/zones" (some (zone_body z)))
        → Keeps (Sent P) (create_zone net c z)
    unfolding create_zone
    create_zone-Keeps z p = decoding-Keeps c post "/zones" (some (zone_body z)) _ _ p

    pub delete_zone-Keeps :
        (id : String)
        → P (request_of c delete ("/zones/" <> id) none)
        → Keeps (Sent P) (delete_zone net c id)
    unfolding delete_zone
    delete_zone-Keeps id p = draining-Keeps c delete ("/zones/" <> id) none _ p

    pub patch_zone-Keeps :
        (id : String) (z : ZonePatch)
        → P (request_of c patch ("/zones/" <> id) (some (patch_body z)))
        → Keeps (Sent P) (patch_zone net c id z)
    unfolding patch_zone
    patch_zone-Keeps id z p = draining-Keeps c patch ("/zones/" <> id) (some (patch_body z)) _ p

    pub notify_zone-Keeps :
        (id : String)
        → P (request_of c put ("/zones/" <> id <> "/notify") none)
        → Keeps (Sent P) (notify_zone net c id)
    unfolding notify_zone
    notify_zone-Keeps id p = draining-Keeps c put ("/zones/" <> id <> "/notify") none _ p

    pub update_zone_metadata-Keeps :
        (id kind : String) (l : List String)
        → P (
            request_of c put
              ("/zones/" <> id <> "/metadata/" <> kind)
              (some (metadata_body kind l)))
        → Keeps (Sent P) (update_zone_metadata net c id kind l)
    unfolding update_zone_metadata
    update_zone_metadata-Keeps id kind l p =
        draining-Keeps c put ("/zones/" <> id <> "/metadata/" <> kind) (some (metadata_body kind l))
          _ p
