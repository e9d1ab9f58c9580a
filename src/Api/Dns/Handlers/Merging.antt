-- ===== src/Api/Dns/Handlers/Merging.antt =====
-- On `CreateRecord` of dns.go.
use kubecp.Common.{String, ◌≡◌, ◌⊎◌, true, false, Option, none, some, List, [], ◌∷◌, ◌++◌, Any}
use kubecp.Common.Exec.{ok}
use kubecp.Common.Text.{to_upper}
use kubecp.Http.{TokenClaims, Exit, Response}
use kubecp.Powerdns.{
  Network, World, Client, ClientError, ApiRequest, Record, Zone, ZonePatch, patch_body, get_zone,
}
use kubecp.Api.Dns.Data.{Platform, View, RecordRequest}
use kubecp.Api.Dns.Content.{validate_record_type, validate_record_content}
use kubecp.Api.Dns.Names.Laws.{InZone}
use kubecp.Api.Dns.Handlers.Records.{existing_records, effective_ttl, replace_patch}

-- The content is already there.
abbrev pub Present : String → List Record → Type 0
Present content records = Any (λ r. r.content ≡ content) records

-- The requested type, in upper case, is known, and the content fits it.
abbrev pub IsValid : Platform → RecordRequest → Type 0
IsValid p req =
    (validate_record_type p (to_upper p.upper req.type) ≡ true)
    × (validate_record_content p (to_upper p.upper req.type) req.content ≡ ok tt)

-- The patch that adds the requested content to the records that a set has.
abbrev pub adding : Platform → Zone → RecordRequest → String → ZonePatch
adding p z req name =
    let type = to_upper p.upper req.type in
    replace_patch name type (effective_ttl req.ttl) (
      existing_records name type z.rrsets
      ++ record { content = req.content; disabled = false } ∷ [])

module _ (p : Platform) (net : Network) (c : Client) (claims : Option TokenClaims) (id : String)
    (body : Option RecordRequest) (w0 : World net.Remote) where
  -- The request writes nothing, or it replaces the record set of some name in the zone and of the
  -- requested type. Then type and content are valid, and the new records are those of the zone that
  -- the server showed, with the requested content behind them, which was not among them.
  abbrev pub Merges : ApiRequest → Type 0
  Merges r =
      (r.payload ≡ none)
      ⊎ ((z : Zone) × (req : RecordRequest) × (name : String) × ((get_zone net c id w0).0 ≡ ok z)
          × (body ≡ some req)
          × InZone name z.name
          × IsValid p req
          × (¬ Present req.content (existing_records name (to_upper p.upper req.type) z.rrsets))
          × (r.payload ≡ some (patch_body (adding p z req name))))

  module _ (z : Zone) (known : (get_zone net c id w0).0 ≡ ok z) (req : RecordRequest)
      (given : body ≡ some req) (name : String) (inside : InZone name z.name)
      (valid : IsValid p req) (f : ClientError → Exit View) (r : Response View) where
    abbrev existing : List Record
    existing = existing_records name (to_upper p.upper req.type) z.rrsets
