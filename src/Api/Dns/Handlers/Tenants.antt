-- ===== src/Api/Dns/Handlers/Tenants.antt =====
-- On the handlers of dns.go that name a zone, taken together.
use text.Mathlib.TextLemmas.{append-nil}
use kubecp.Common.{
  String, ◌<>◌, ◌≡◌, refl, sym, ap, inl, inr, true, Option, some, Option-cases, arith, List, [],
  ◌∷◌, All,
}
use kubecp.Common.Exec.{
  ok, lift, on_error, ignore, Keeps, Keeps-bind, Keeps-bind_known, Keeps-lift, Keeps-pure,
  Keeps-raise, Keeps-on_error, Keeps-ignore, Keeps-fail_if, Keeps-then, pure, ◌>>◌, ◌>>=◌,
}
use kubecp.Http.{Response, TokenClaims, Exit}
use kubecp.Powerdns.{
  ClientError, Network, World, url_of, Client, Zone, ZonePatch, get_zone, patch_zone, notify_zone,
}
use kubecp.Powerdns.Traffic.{
  Sent, delete_zone-Keeps, patch_zone-Keeps, notify_zone-Keeps, update_zone_metadata-Keeps,
}
use kubecp.Api.Dns.Data.{Platform, View, RecordRequest, SecondaryConfigRequest}
use kubecp.Api.Dns.Access.{can_access_zone}
use kubecp.Api.Dns.Names.{resolve_record_name}
use kubecp.Api.Dns.Names.Laws.{InZone, resolve_record_name-InZone}
use kubecp.Api.Dns.Handlers.Load.{load_zone}
use kubecp.Api.Dns.Handlers.Zones.{handle_get_zone, handle_delete_zone}
use kubecp.Api.Dns.Handlers.Records.{
  handle_list_records, handle_create_record, handle_update_record, handle_delete_record, refused,
}
use kubecp.Api.Dns.Handlers.Secondary.{
  first_invalid, check_ips, allow_axfr, handle_get_secondary_config, handle_update_secondary_config,
}
use kubecp.Api.Dns.Handlers.Routes.{ZoneAction, serve_zone}
use kubecp.Api.Dns.Handlers.Isolation.{
  Authorized, load_zone-Authorized, checked_name-InZone, checked_name-Keeps, body_of-Keeps,
}

check_ips-Keeps :
    (p : Platform) (net : Network) (c : Client) (P : World net.Remote → Type 0) (what : String)
    (ips : List String)
    → Keeps P (check_ips p net c what ips)
unfolding check_ips
check_ips-Keeps p net c P what ips = elim (Option-cases (first_invalid p ips)) [
  | inl e ↦ rw (e, check_ips) (Keeps-pure tt)
  | inr (ip, e) ↦ rw (e, check_ips) (Keeps-raise _)
]

-- `resolveRecordName` alone, as `DeleteRecord` calls it
resolved :
    (p : Platform) (net : Network) (z : Zone) (req : RecordRequest) (w : World net.Remote)
    (n : String)
    → (on_error {W = World net.Remote} refused
        (lift (resolve_record_name p.quote req.name z.name))
        w).0
      ≡ ok n
    → InZone n z.name
unfolding on_error lift
resolved p net z req w n h = resolve_record_name-InZone p.quote req.name z.name (ground arith)

module _ (p : Platform) (net : Network) (c : Client) (claims : Option TokenClaims) (id : String)
    (w0 : World net.Remote) where
  abbrev May : World net.Remote → Type 0
  May = Sent (Authorized net c claims id w0)

  -- the zone's own path
  itself : (x : String) × (url_of c ("/zones/" <> id) ≡ url_of c ("/zones/" <> id <> x))
  itself = ("", ap (λ s. url_of c ("/zones/" <> s)) (sym (append-nil id)))

  module _ (z : Zone) (known : (get_zone net c id w0).0 ≡ ok z)
      (may : can_access_zone claims z ≡ some true) where
    patch-May :
        (patch : ZonePatch)
        → All (λ rr. InZone rr.name z.name) patch.rrsets
        → Keeps May (patch_zone net c id patch)
    patch-May zp inside =
        patch_zone-Keeps net (Authorized net c claims id w0) c id zp
          (inr (z, known, may, itself, inside))

    notify-May : Keeps May (notify_zone net c id)
    notify-May =
        notify_zone-Keeps net (Authorized net c claims id w0) c id
          (inr (z, known, may, ("/notify", refl), tt))

    metadata-May : (l : List String) → Keeps May (allow_axfr p net c id l)
    unfolding allow_axfr
    metadata-May [] = Keeps-pure tt
    metadata-May (ip ∷ ips) = Keeps-on_error _ _ (
        update_zone_metadata-Keeps net (Authorized net c claims id w0) c id "ALLOW-AXFR-FROM"
          (ip ∷ ips) (inr (z, known, may, ("/metadata/ALLOW-AXFR-FROM", refl), tt)))

    -- What the record handlers end with: a patch, a notification and a response.
    patched-May :
        (patch : ZonePatch) (f : ClientError → Exit View) (r : Response View)
        → All (λ rr. InZone rr.name z.name) patch.rrsets
        → Keeps May
            (on_error f (patch_zone net c id patch) >> (ignore (notify_zone net c id) >> pure r))
    patched-May zp f r inside =
        Keeps-then _ _ (Keeps-on_error _ _ (patch-May zp inside))
          (Keeps-then _ _ (Keeps-ignore _ notify-May) (Keeps-pure r))

  handle_delete_zone-Authorized : w0.sent ≡ [] → May (handle_delete_zone net c claims id w0).1
  unfolding handle_delete_zone ◌>>=◌ ◌>>◌ load_zone
  handle_delete_zone-Authorized empty =
      load_zone-Authorized net c claims id w0 _
        (λ z known may.
          Keeps-then _ _
            (Keeps-on_error _ _ (
              delete_zone-Keeps net (Authorized net c claims id w0) c id
                (inr (z, known, may, itself, tt))))
            (Keeps-pure _))
        empty

  handle_get_zone-Authorized : w0.sent ≡ [] → May (handle_get_zone net c claims id w0).1
  unfolding handle_get_zone
  handle_get_zone-Authorized empty =
      load_zone-Authorized net c claims id w0 _ (λ z known may. Keeps-pure _) empty

  handle_list_records-Authorized : w0.sent ≡ [] → May (handle_list_records p net c claims id w0).1
  unfolding handle_list_records
  handle_list_records-Authorized empty =
      load_zone-Authorized net c claims id w0 _ (λ z known may. Keeps-pure _) empty

  handle_get_secondary_config-Authorized :
      w0.sent ≡ [] → May (handle_get_secondary_config p net c claims id w0).1
  unfolding handle_get_secondary_config
  handle_get_secondary_config-Authorized empty =
      load_zone-Authorized net c claims id w0 _ (λ z known may. Keeps-pure _) empty

  module _ (body : Option RecordRequest) where
    handle_create_record-Authorized :
        w0.sent ≡ [] → May (handle_create_record p net c claims id body w0).1
    unfolding handle_create_record
    handle_create_record-Authorized empty =
        load_zone-Authorized net c claims id w0 _
          (λ z known may. Keeps-bind _ _ (body_of-Keeps net May body) (λ req.
            Keeps-bind_known _ _ (checked_name-Keeps p net z req May) (λ w n named.
              Keeps-then _ _ (Keeps-fail_if _ _)
                (patched-May z known may _ _ _ (checked_name-InZone p net z req w n named, tt)))))
          empty

    handle_update_record-Authorized :
        w0.sent ≡ [] → May (handle_update_record p net c claims id body w0).1
    unfolding handle_update_record
    handle_update_record-Authorized empty =
        load_zone-Authorized net c claims id w0 _
          (λ z known may. Keeps-bind _ _ (body_of-Keeps net May body) (λ req.
            Keeps-bind_known _ _ (checked_name-Keeps p net z req May) (λ w n named.
              patched-May z known may _ _ _ (checked_name-InZone p net z req w n named, tt))))
          empty

    handle_delete_record-Authorized :
        w0.sent ≡ [] → May (handle_delete_record p net c claims id body w0).1
    unfolding handle_delete_record
    handle_delete_record-Authorized empty =
        load_zone-Authorized net c claims id w0 _
          (λ z known may. Keeps-bind _ _ (body_of-Keeps net May body) (λ req.
            Keeps-bind_known _ _ (Keeps-on_error _ _ (Keeps-lift _))
              (λ w n named. patched-May z known may _ _ _ (resolved p net z req w n named, tt))))
          empty

  handle_update_secondary_config-Authorized :
      (body : Option SecondaryConfigRequest)
      → w0.sent ≡ []
      → May (handle_update_secondary_config p net c claims id body w0).1
  unfolding handle_update_secondary_config
  handle_update_secondary_config-Authorized body empty =
      load_zone-Authorized net c claims id w0 _
        (λ z known may. Keeps-bind _ _ (body_of-Keeps net May body) (λ req.
          Keeps-then _ _ (check_ips-Keeps p net c May _ _) (
            Keeps-then _ _ (check_ips-Keeps p net c May _ _) (
              Keeps-then _ _ (metadata-May z known may _)
                (Keeps-then _ _ (Keeps-ignore _ (notify-May z known may)) (Keeps-pure _))))))
        empty

-- Whatever a request below `/zones/{zoneID}` asks for, every call that goes out either reads, or is
-- about that zone, which the server has just shown and which the claims may reach. Such a call
-- creates no zone, and every record name that it changes lies in the zone.
pub serve_zone-Authorized :
    (p : Platform) (net : Network) (c : Client) (claims : Option TokenClaims) (id : String)
    (action : ZoneAction) (w : World net.Remote)
    → w.sent ≡ []
    → Sent (Authorized net c claims id w) (serve_zone p net c claims id action w).1
unfolding serve_zone
serve_zone-Authorized p net c claims id ZoneAction.get_zone w =
    handle_get_zone-Authorized p net c claims id w
serve_zone-Authorized p net c claims id ZoneAction.delete_zone w =
    handle_delete_zone-Authorized p net c claims id w
serve_zone-Authorized p net c claims id ZoneAction.list_records w =
    handle_list_records-Authorized p net c claims id w
serve_zone-Authorized p net c claims id ZoneAction.get_secondary_config w =
    handle_get_secondary_config-Authorized p net c claims id w
serve_zone-Authorized p net c claims id (ZoneAction.create_record body) w =
    handle_create_record-Authorized p net c claims id w body
serve_zone-Authorized p net c claims id (ZoneAction.update_record body) w =
    handle_update_record-Authorized p net c claims id w body
serve_zone-Authorized p net c claims id (ZoneAction.delete_record body) w =
    handle_delete_record-Authorized p net c claims id w body
serve_zone-Authorized p net c claims id (ZoneAction.update_secondary_config body) w =
    handle_update_secondary_config-Authorized p net c claims id w body
