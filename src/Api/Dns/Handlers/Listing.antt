-- ===== src/Api/Dns/Handlers/Listing.antt =====
-- On `ListRecords` of dns.go.
use kubecp.Common.{◌≡◌, ◌↔◌, ◌⊎◌, inl, inr, false, List, [], ◌∷◌, ◌++◌, Any, arith, Bool-cases}
use kubecp.Powerdns.{Record, RrSet}
use kubecp.Api.Dns.Data.{RecordResponse}
use kubecp.Api.Dns.Handlers.Records.{shown_records, zone_records, view_of_record}

-- The response stands for an enabled record of the set.
abbrev pub ShownIn : RecordResponse → RrSet → Type 0
ShownIn v rr =
    Any (λ rec. (rec.disabled ≡ false) × (view_of_record rr.name rr.type rr.ttl rec.content ≡ v))
      rr.records

module _ {A : Type 0} (P : A → Type 0) where
  Any-append_iff : (xs ys : List A) → Any P (xs ++ ys) ↔ (Any P xs ⊎ Any P ys)
  Any-append_iff [] ys = ground arith
  Any-append_iff (x ∷ xs) ys = ground (arith, Any-append_iff xs ys)

shown_records_iff :
    (v : RecordResponse) (rr : RrSet) (records : List Record)
    → Any (λ s. s ≡ v) (shown_records rr records)
      ↔ Any
          (λ rec. (rec.disabled ≡ false) × (view_of_record rr.name rr.type rr.ttl rec.content ≡ v))
          records
unfolding shown_records
shown_records_iff v rr [] = ground arith
shown_records_iff v rr (rec ∷ rest) = elim (Bool-cases rec.disabled) [
  | inl t ↦ rw t (ground (arith, shown_records_iff v rr rest))
  | inr f ↦ rw f (ground (arith, shown_records_iff v rr rest))
]

-- `ListRecords` shows exactly the enabled records of the zone, each with the name, type and TTL of its
-- set.
zone_records_iff :
    (v : RecordResponse) (rrsets : List RrSet)
    → Any (λ s. s ≡ v) (zone_records rrsets) ↔ Any (ShownIn v) rrsets
unfolding zone_records
zone_records_iff v [] = ground arith
zone_records_iff v (rr ∷ rest) = ground (
  arith,
  Any-append_iff (λ s. s ≡ v) (shown_records rr rr.records) (zone_records rest),
  shown_records_iff v rr rr.records,
  zone_records_iff v rest,
)
