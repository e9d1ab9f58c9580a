-- ===== src/Api/Dns/Names/Laws.antt =====
-- On `resolveRecordName` of dns.go.
use text.Mathlib.TextLemmas.{append_assoc}
use kubecp.Common.{
  String, ◌<>◌, str_eq, eq_iff, ◌≡◌, refl, ap, ◌∙◌, ◌⊎◌, ◌↔◌, inl, inr, Bool, true, false, ◌||◌,
  arith, Bool-cases, Bool-decides,
}
use kubecp.Common.Text.{is_empty, has_suffix}
use kubecp.Common.Text.Laws.{is_empty_iff, has_suffix_iff, has_suffix-append}
use kubecp.Common.Exec.{ok, err}
use kubecp.Api.Dns.Names.{ensure_trailing_dot, resolve_record_name, outside_zone}

-- A name is the zone's apex, or lies below it.
abbrev pub InZone : String → String → Type 0
InZone name zone_name =
    (name ≡ ensure_trailing_dot zone_name)
    ⊎ ((sub : String) × (name ≡ sub <> ("." <> ensure_trailing_dot zone_name)))

has_suffix-ensure_trailing_dot : (s : String) → has_suffix (ensure_trailing_dot s) "." ≡ true
unfolding ensure_trailing_dot
has_suffix-ensure_trailing_dot s = elim (Bool-cases (has_suffix s ".")) [
  | inl e ↦ rw (e, e)
  | inr e ↦ rw (e) (has_suffix-append s ".")
]

pub ensure_trailing_dot_of_suffix :
    (s : String) → has_suffix s "." ≡ true → ensure_trailing_dot s ≡ s
unfolding ensure_trailing_dot
ensure_trailing_dot_of_suffix s h = rw h

-- The tests of `resolveRecordName`, in order.
abbrev is_apex : String → Bool
is_apex name = str_eq name "@" || is_empty name

abbrev is_within : String → String → Bool
is_within fqdn zone_fqdn = str_eq fqdn zone_fqdn || has_suffix fqdn ("." <> zone_fqdn)

within_sound :
    (n z : String) → is_within n z ≡ true → (n ≡ z) ⊎ ((sub : String) × (n ≡ sub <> ("." <> z)))
within_sound n z h = elim (Bool-cases (str_eq n z)) [
  | inl e ↦ inl ((eq_iff n z).0 e)
  | inr e ↦ inr ((has_suffix_iff n ("." <> z)).0 (rw e at h))
]

within_complete :
    (n z : String) → (n ≡ z) ⊎ ((sub : String) × (n ≡ sub <> ("." <> z))) → is_within n z ≡ true
within_complete n z (inl e) = ground (arith, eq_iff n z)
within_complete n z (inr s) = ground (arith, (has_suffix_iff n ("." <> z)).1 s)

within_iff :
    (n z : String) → (is_within n z ≡ true) ↔ ((n ≡ z) ⊎ ((sub : String) × (n ≡ sub <> ("." <> z))))
within_iff n z = (within_sound n z, within_complete n z)

no_apex_of_suffix : (s : String) → has_suffix s "." ≡ true → is_apex s ≡ false
unfolding has_suffix
no_apex_of_suffix s h = elim (Bool-cases (is_empty s)) [
  | inl e ↦ cc (rw ((is_empty_iff s).0 e) at h)
  | inr e ↦ elim (Bool-cases (str_eq s "@")) [
    | inl f ↦ cc (rw ((eq_iff s "@").0 f) at h)
    | inr f ↦ rw (f, e)
  ]
]

module _ (quote : String → String) (name zone_name : String) where
  -- A resolved name is the zone's apex or lies below it, whatever name the request has.
  pub resolve_record_name-InZone :
      {n : String} → resolve_record_name quote name zone_name ≡ ok n → InZone n zone_name
  unfolding resolve_record_name
  resolve_record_name-InZone {n} h = elim (Bool-cases (is_apex name)) [
    | inl e ↦ inl (ground arith)
    | inr e ↦
        elim (Bool-cases (is_within (ensure_trailing_dot name) (ensure_trailing_dot zone_name))) [
          | inl f ↦
              let same : ensure_trailing_dot name ≡ n = ground arith in
              within_sound n (ensure_trailing_dot zone_name) (rw same at f)
          | inr f ↦ inr (name, ground arith)
        ]
  ]

  -- The call fails exactly for a name with a final dot, other than a name in the zone.
  pub resolve_record_name_fails_iff :
      (resolve_record_name quote name zone_name ≡ err (outside_zone quote name zone_name))
      ↔ ((has_suffix name "." ≡ true) × (¬ InZone name zone_name))
  unfolding resolve_record_name
  resolve_record_name_fails_iff = elim (Bool-cases (has_suffix name ".")) [
    | inl dot ↦
        let same = ensure_trailing_dot_of_suffix name dot in
        rw (no_apex_of_suffix name dot, same, dot)
          (elim (Bool-decides (is_within name (ensure_trailing_dot zone_name))
            (within_iff name (ensure_trailing_dot zone_name))) [
              | inl (q, t) ↦ rw t ((λ e. cc), λ (_, nq). absurd (nq q))
              | inr (nq, t) ↦ rw t ((λ _. (refl, nq)), λ _. refl)
            ])
    | inr e ↦ ground arith
  ]

suffix_of_InZone : (n zone_name : String) → InZone n zone_name → has_suffix n "." ≡ true
suffix_of_InZone n zone_name (inl e) = rw e (has_suffix-ensure_trailing_dot zone_name)
suffix_of_InZone n zone_name (inr (sub, e)) =
    let (p, q) = (has_suffix_iff _ _).0 (has_suffix-ensure_trailing_dot zone_name) in
    let whole : n ≡ (sub <> ("." <> p)) <> "." =
      e ∙ ap (λ t. sub <> ("." <> t)) q ∙ simp append_assoc in
    (has_suffix_iff n ".").1 (sub <> ("." <> p), whole)

-- A name in the zone resolves to itself.
InZone-resolves :
    (quote : String → String) (n zone_name : String)
    → InZone n zone_name
    → resolve_record_name quote n zone_name ≡ ok n
unfolding resolve_record_name
InZone-resolves quote n zone_name q =
    let dot = suffix_of_InZone n zone_name q in
    rw (
      no_apex_of_suffix n dot,
      ensure_trailing_dot_of_suffix n dot,
      within_complete n (ensure_trailing_dot zone_name) q,
    )

-- A name that `resolveRecordName` has returned resolves to itself.
resolve_record_name_idempotent :
    (quote : String → String) (name zone_name : String) {n : String}
    → resolve_record_name quote name zone_name ≡ ok n
    → resolve_record_name quote n zone_name ≡ ok n
resolve_record_name_idempotent quote name zone_name {n} h =
    InZone-resolves quote n zone_name (resolve_record_name-InZone quote name zone_name h)
