-- ===== src/Api/Dns/Defaults/Laws.antt =====
-- On the record sets with which dns.go fills a new zone.
use Prim.Native.String.{count}
use text.Mathlib.TextLemmas.{append_assoc, length-append, append_cancel_right}
use kubecp.Common.{
  String, ◌<>◌, str_eq, eq_iff, ◌≡◌, ◌≢◌, refl, sym, ap, inl, inr, Bool, true, false, [], ◌++◌,
  arith, All, All-append, Pairs, Pairs-append, ◌<◌, if◌then◌else◌,
}
use kubecp.Common.Text.{is_empty, has_suffix}
use kubecp.Powerdns.{RrSet}
use kubecp.Api.Dns.Data.{Settings}
use kubecp.Api.Dns.Names.Laws.{InZone, ensure_trailing_dot_of_suffix}
use kubecp.Api.Dns.Defaults.{build_default_records, address_sets, closing_sets}

module _ (zone : String) (dotted : has_suffix zone "." ≡ true) where
  apex : InZone zone zone
  apex = inl (sym (ensure_trailing_dot_of_suffix zone dotted))

  -- a prefix that ends in a dot
  below : (label prefix : String) → prefix ≡ label <> "." → InZone (prefix <> zone) zone
  below label prefix e =
      inr (label, rw (e, ensure_trailing_dot_of_suffix zone dotted) (append_assoc label "." zone))

  addresses-InZone : (h : Settings) → All (λ rr. InZone rr.name zone) (address_sets h zone)
  addresses-InZone h =
      (apex, (below "www" "www." refl, (below "ns1" "ns1." refl, (below "ns2" "ns2." refl, tt))))

  optional-InZone :
      (h : Settings) (b : Bool)
      → All (λ rr. InZone rr.name zone) (if b then [] else address_sets h zone)
  optional-InZone h true = tt
  optional-InZone h false = addresses-InZone h

  -- Every default record set of a zone name with its final dot lies in the zone.
  build_default_records-InZone :
      (h : Settings) → All (λ rr. InZone rr.name zone) (build_default_records h zone)
  unfolding build_default_records
  build_default_records-InZone h = (
    apex,
    (
      apex,
      All-append (λ rr. InZone rr.name zone) _ _ (optional-InZone h (is_empty h.external_ip))
          (apex, (apex, (below "default._domainkey" "default._domainkey." refl, tt))),
    ),
  )

-- Two record sets differ in their name or in their type.
pub record Differ (x y : RrSet) : Type 0 where
  pub apart : (x.name ≡ y.name) → (x.type ≡ y.type) → ⊥

by_type : {x y : RrSet} → str_eq x.type y.type ≡ false → Differ x y
by_type {x} {y} h = record { apart = λ n t. cc (h, (eq_iff x.type y.type).1 t) }

by_name : {x y : RrSet} → x.name ≢ y.name → Differ x y
by_name h = record { apart = λ n t. h n }

longer : (p z : String) → 0 < count p → p <> z ≢ z
longer p z h e = absurd (omega (arith, length-append p z, ap count e))

prefixes : (p q z : String) → str_eq p q ≡ false → p <> z ≢ q <> z
prefixes p q z h e = cc (h, (eq_iff p q).1 (append_cancel_right p q z e))

module _ (h : Settings) (zone : String) where
  addresses-Differ : Pairs Differ (address_sets h zone)
  addresses-Differ = (
    (
      by_name (λ e. longer "www." zone (omega arith) (sym e)),
      (
        by_name (λ e. longer "ns1." zone (omega arith) (sym e)),
        (by_name (λ e. longer "ns2." zone (omega arith) (sym e)), tt),
      ),
    ),
    (
      (
        by_name (prefixes "www." "ns1." zone refl),
        (by_name (prefixes "www." "ns2." zone refl), tt),
      ),
      ((by_name (prefixes "ns1." "ns2." zone refl), tt), (tt, tt)),
    ),
  )

  optional-Differ : (b : Bool) → Pairs Differ (if b then [] else address_sets h zone)
  optional-Differ true = tt
  optional-Differ false = addresses-Differ

  from_addresses :
      (x : RrSet) (b : Bool)
      → str_eq x.type "A" ≡ false
      → All (Differ x) (if b then [] else address_sets h zone)
  from_addresses x true e = tt
  from_addresses x false e = (by_type e, (by_type e, (by_type e, (by_type e, tt))))

  closing-Differ : Pairs Differ (closing_sets h zone)
  closing-Differ =
      let dkim : ("default._domainkey." <> zone) ≢ zone =
        longer "default._domainkey." zone (omega arith) in
      ((by_type refl, (by_type refl, tt)), ((by_name (λ e. dkim (sym e)), tt), (tt, tt)))

  to_closing :
      (x : RrSet)
      → str_eq x.type "MX" ≡ false
      → str_eq x.type "TXT" ≡ false
      → All (Differ x) (closing_sets h zone)
  to_closing x m t = (by_type m, (by_type t, (by_type t, tt)))

  between :
      (b : Bool)
      → All (λ x. All (Differ x) (closing_sets h zone)) (if b then [] else address_sets h zone)
  between true = tt
  between false = (
    to_closing _ refl refl,
    (to_closing _ refl refl, (to_closing _ refl refl, (to_closing _ refl refl, tt))),
  )

  to_later :
      (x : RrSet) (b : Bool)
      → str_eq x.type "A" ≡ false
      → str_eq x.type "MX" ≡ false
      → str_eq x.type "TXT" ≡ false
      → All (Differ x) ((if b then [] else address_sets h zone) ++ closing_sets h zone)
  to_later x b a m t =
      All-append (Differ x) (if b then [] else address_sets h zone) (closing_sets h zone)
        (from_addresses x b a) (to_closing x m t)

  -- No two default record sets of a zone have the same name and type.
  pub build_default_records-Differ : Pairs Differ (build_default_records h zone)
  unfolding build_default_records
  build_default_records-Differ =
      let b = is_empty h.external_ip in
      (
        (by_type refl, to_later _ b refl refl refl),
        (
          to_later _ b refl refl refl,
          Pairs-append Differ (if b then [] else address_sets h zone) (closing_sets h zone)
              (optional-Differ b) closing-Differ (between b),
        ),
      )
