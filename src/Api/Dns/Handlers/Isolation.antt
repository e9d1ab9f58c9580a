-- ===== src/Api/Dns/Handlers/Isolation.antt =====
-- The calls of the handlers of dns.go to the PowerDNS server, one handler at a time.
use kubecp.Common.{
  String, ◌<>◌, ◌≡◌, refl, ap, ◌∙◌, ◌⊎◌, inl, inr, true, Option, none, some, [], All, arith,
  Bool-cases, Option-cases,
}
use kubecp.Common.Exec.{
  Result, ok, err, pure, raise, lift, on_error, fail_if, ◌>>=◌, ◌>>◌, resume, convert, Keeps,
  Keeps-lift, Keeps-pure, Keeps-raise, Keeps-on_error, Keeps-fail_if, Keeps-then,
}
use kubecp.Http.{TokenClaims}
use kubecp.Powerdns.{
  Network, World, Client, ClientError, ApiRequest, Payload, zone_body, patch_body, metadata_body,
  get, Zone, url_of, get_zone,
}
use kubecp.Powerdns.Traffic.{Sent, request_of, get_zone-Keeps}
use kubecp.Api.Dns.Data.{Platform, RecordRequest}
use kubecp.Api.Dns.Access.{can_access_zone}
use kubecp.Api.Dns.Names.Laws.{InZone, resolve_record_name-InZone}
use kubecp.Common.Text.{to_upper}
use kubecp.Api.Dns.Content.{validate_record_type, validate_record_content}
use kubecp.Api.Dns.Handlers.Records.{checked_name}
use kubecp.Api.Dns.Handlers.Load.{Effect, load_zone, authorize, zone_error, body_of}

-- The request is about this zone.
abbrev pub Targets : Client → String → ApiRequest → Type 0
Targets c id r = (rest : String) × (r.url ≡ url_of c ("/zones/" <> id <> rest))

-- Every name that a payload changes lies in the zone, and no zone is created.
abbrev pub InBounds : Zone → Option Payload → Type 0
InBounds z none = Unit
InBounds z (some (zone_body _)) = ⊥
InBounds z (some (patch_body p)) = All (λ rr. InZone rr.name z.name) p.rrsets
InBounds z (some (metadata_body _ _)) = Unit

module _ (net : Network) (c : Client) (claims : Option TokenClaims) (id : String)
    (w0 : World net.Remote) where
  -- The request changes nothing, or the zone that the server gave at first may be reached with these
  -- claims, and the request is about that zone and stays within it.
  abbrev pub Authorized : ApiRequest → Type 0
  Authorized r =
      (r.method ≡ get)
      ⊎ ((z : Zone) × ((get_zone net c id w0).0 ≡ ok z)
          × (can_access_zone claims z ≡ some true)
          × Targets c id r
          × InBounds z r.payload)

  module _ (P : ApiRequest → Type 0) (reads : P (request_of c get ("/zones/" <> id) none))
      {A : Type 0} (rest : Zone → Effect net A)
      (safe : (z : Zone)
        → (get_zone net c id w0).0 ≡ ok z
        → can_access_zone claims z ≡ some true
        → Keeps (Sent P) (rest z)) where
    authorize-Sent :
        (z : Zone) (w : World net.Remote)
        → (get_zone net c id w0).0 ≡ ok z
        → Sent P w
        → Sent P (((authorize net claims z >> pure z) >>= rest) w).1
    unfolding authorize ◌>>=◌ ◌>>◌ raise fail_if pure
    authorize-Sent z w e h = elim (Option-cases (can_access_zone claims z)) [
      | inl n ↦ rw (n, authorize) h
      | inr (b, s) ↦ elim (Bool-cases b) [
        | inl t ↦ let yes_may = s ∙ ap some t in rw (yes_may, authorize) ((safe z e yes_may).at w h)
        | inr f ↦ rw (s ∙ ap some f, authorize) h
      ]
    ]

    loaded :
        (s : Result ClientError Zone × World net.Remote)
        → (get_zone net c id w0).0 ≡ s.0
        → Sent P s.1
        → Sent P
            (resume rest (resume (λ z. authorize net claims z >> pure z) (convert zone_error s))).1
    unfolding ◌>>=◌
    loaded (ok z, w) e h = authorize-Sent z w e h
    loaded (err x, w) e h = h

    -- The shape of every handler that names a zone.
    pub load_zone-Sent : All P w0.sent → Sent P ((load_zone net c claims id >>= rest) w0).1
    unfolding load_zone ◌>>=◌ on_error
    load_zone-Sent before =
        loaded (get_zone net c id w0) refl ((get_zone-Keeps net P c id reads).at w0 before)

  pub load_zone-Authorized :
      {A : Type 0} (rest : Zone → Effect net A)
      → ((z : Zone)
          → (get_zone net c id w0).0 ≡ ok z
          → can_access_zone claims z ≡ some true
          → Keeps (Sent Authorized) (rest z))
      → w0.sent ≡ []
      → Sent Authorized ((load_zone net c claims id >>= rest) w0).1
  load_zone-Authorized rest safe empty =
      load_zone-Sent Authorized (inl refl) rest safe (rw empty tt)

module _ (p : Platform) (net : Network) (z : Zone) (req : RecordRequest) where
  -- The name that the shared checks return lies in the zone.
  pub checked_name-InZone :
      (w : World net.Remote) (n : String) → (checked_name p net z req w).0 ≡ ok n → InZone n z.name
  unfolding checked_name ◌>>=◌ ◌>>◌ on_error lift fail_if
  checked_name-InZone w n h = resolve_record_name-InZone p.quote req.name z.name (ground arith)

  -- The type is known and the content fits it.
  pub checked_name-valid :
      (w : World net.Remote) (n : String)
      → (checked_name p net z req w).0 ≡ ok n
      → (validate_record_type p (to_upper p.upper req.type) ≡ true)
        × (validate_record_content p (to_upper p.upper req.type) req.content ≡ ok tt)
  unfolding checked_name ◌>>=◌ ◌>>◌ on_error lift fail_if
  checked_name-valid w n h = ground arith

  pub checked_name-Keeps : (P : World net.Remote → Type 0) → Keeps P (checked_name p net z req)
  unfolding checked_name
  checked_name-Keeps P =
      Keeps-then _ _ (Keeps-fail_if _ _)
        (Keeps-then _ _ (Keeps-on_error _ _ (Keeps-lift _)) (Keeps-on_error _ _ (Keeps-lift _)))

pub body_of-Keeps :
    {A : Type 0} (net : Network) (P : World net.Remote → Type 0) (body : Option A)
    → Keeps P (body_of net body)
unfolding body_of
body_of-Keeps net P none = Keeps-raise _
body_of-Keeps net P (some a) = Keeps-pure a
