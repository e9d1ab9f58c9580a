-- ===== src/Api/Dns/Handlers/Records.antt =====
-- The record handlers of dns.go.
use kubecp.Common.{
  ℤ, pos, not_positive, String, ◌<>◌, str_eq, Bool, false, not, ◌&&◌, Option, none, List, [], ◌∷◌,
  ◌++◌, any, if◌then◌else◌,
}
use kubecp.Common.Text.{to_upper}
use kubecp.Common.Exec.{pure, lift, on_error, ignore, fail_if, ◌>>=◌, ◌>>◌}
use kubecp.Http.{
  Response, no_body, Exit, reply, TokenClaims, write_bad_request, write_conflict, write_json,
}
use kubecp.Powerdns.{Network, Client, Record, RrSet, Zone, ZonePatch, patch_zone, notify_zone}
use kubecp.Api.Dns.Data.{Platform, View, record_view, records_view, RecordRequest, RecordResponse}
use kubecp.Api.Dns.Names.{resolve_record_name}
use kubecp.Api.Dns.Content.{validate_record_type, validate_record_content}
use kubecp.Api.Dns.Handlers.Load.{Effect, load_zone, body_of, failed}

-- The inner loop of `ListRecords`, over the records of one set.
unfoldable pub shown_records : RrSet → List Record → List RecordResponse
shown_records rr [] = []
shown_records rr (rec ∷ rest) =
    if rec.disabled
    then shown_records rr rest
    else record { name = rr.name; type = rr.type; ttl = rr.ttl; content = rec.content }
      ∷ shown_records rr rest

unfoldable pub zone_records : List RrSet → List RecordResponse
unfolding shown_records
zone_records [] = []
zone_records (rr ∷ rest) = shown_records rr rr.records ++ zone_records rest

-- The records of the first set with this name and type.
unfoldable pub existing_records : String → String → List RrSet → List Record
existing_records name type [] = []
existing_records name type (rr ∷ rest) =
    if str_eq rr.name name && str_eq rr.type type
    then rr.records
    else existing_records name type rest

unfoldable pub has_content : String → List Record → Bool
has_content content records = any (λ r. str_eq r.content content) records

-- `if ttl <= 0 { ttl = 3600 }`
unfoldable pub effective_ttl : ℤ → ℤ
effective_ttl ttl = if not_positive ttl then pos 3600 else ttl

-- A patch that replaces one record set.
abbrev pub replace_patch : String → String → ℤ → List Record → ZonePatch
replace_patch name type ttl records = record {
  rrsets =
      record {
        name = name;
        type = type;
        ttl = ttl;
        change_type = "REPLACE";
        records = records;
        comments = [];
      }
      ∷ [];
}

-- A patch that deletes one record set.
abbrev pub delete_patch : String → String → ZonePatch
delete_patch name type = record {
  rrsets =
      record {
        name = name;
        type = type;
        ttl = pos 0;
        change_type = "DELETE";
        records = [];
        comments = [];
      }
      ∷ [];
}

abbrev pub view_of_record : String → String → ℤ → String → RecordResponse
view_of_record name type ttl content = record {
  name = name;
  type = type;
  ttl = ttl;
  content = content;
}

abbrev pub refused : String → Exit View
refused message = reply (write_bad_request message none)

module _ (p : Platform) (net : Network) where
  -- The checks that `CreateRecord` and `UpdateRecord` share: the name within the zone.
  unfoldable pub checked_name : Zone → RecordRequest → Effect net String
  checked_name zone req = do
    let type = to_upper p.upper req.type
    fail_if (not (validate_record_type p type)) (refused ("Invalid record type: " <> type))
    on_error refused (lift (validate_record_content p type req.content))
    on_error refused (lift (resolve_record_name p.quote req.name zone.name))

module _ (p : Platform) (net : Network) (c : Client) where
  unfoldable pub handle_list_records : Option TokenClaims → String → Effect net (Response View)
  handle_list_records claims zone_id = do
    zone ← load_zone net c claims zone_id
    pure (write_json 200 (records_view (zone_records zone.rrsets)))

  unfoldable pub handle_create_record :
      Option TokenClaims → String → Option RecordRequest → Effect net (Response View)
  handle_create_record claims zone_id body = do
    zone ← load_zone net c claims zone_id
    req ← body_of net body
    name ← checked_name p net zone req
    let type = to_upper p.upper req.type
    let ttl = effective_ttl req.ttl
    let existing = existing_records name type zone.rrsets
    fail_if (has_content req.content existing) (reply (write_conflict "Record already exists" none))
    let records = existing ++ record { content = req.content; disabled = false } ∷ []
    on_error (failed "Failed to create record: ")
        (patch_zone net c zone_id (replace_patch name type ttl records))
    ignore (notify_zone net c zone_id)
    pure (write_json 201 (record_view (view_of_record name type ttl req.content)))

  unfoldable pub handle_update_record :
      Option TokenClaims → String → Option RecordRequest → Effect net (Response View)
  handle_update_record claims zone_id body = do
    zone ← load_zone net c claims zone_id
    req ← body_of net body
    name ← checked_name p net zone req
    let type = to_upper p.upper req.type
    let ttl = effective_ttl req.ttl
    on_error (failed "Failed to update record: ") (
        patch_zone net c zone_id
          (replace_patch name type ttl (record { content = req.content; disabled = false } ∷ [])))
    ignore (notify_zone net c zone_id)
    pure (write_json 200 (record_view (view_of_record name type ttl req.content)))

  unfoldable pub handle_delete_record :
      Option TokenClaims → String → Option RecordRequest → Effect net (Response View)
  handle_delete_record claims zone_id body = do
    zone ← load_zone net c claims zone_id
    req ← body_of net body
    let type = to_upper p.upper req.type
    name ← on_error refused (lift (resolve_record_name p.quote req.name zone.name))
    on_error (failed "Failed to delete record: ")
        (patch_zone net c zone_id (delete_patch name type))
    ignore (notify_zone net c zone_id)
    pure (record { status = 204; body = no_body })
