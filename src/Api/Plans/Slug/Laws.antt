-- ===== src/Api/Plans/Slug/Laws.antt =====
-- On the slug of hostingplans.go.
use kubecp.Common.Text.{to_lower}
use kubecp.Common.{
  Bool, Bool-cases, String, arith, false, inl, inr, refl, true, ◌&&◌, ◌==◌, ◌||◌, ◌≡◌, ap, leb,
  if◌then◌else◌,
}
use kubecp.Api.Plans.Slug.{dash_runs, is_slug_char, slug}
use Prim.Native.Char.{Char, code}
use kubecp.Api.Import.{is_name_char, trim_left_dashes, cons_undashed, trim_right_dashes}
use kubecp.Api.Import.Laws.{
  OnlyNameChars, starts_dashed, trim_left_dashes-chars, trim_right_dashes-chars,
  trim_left_dashes-start, trim_right_dashes-start,
}
use Prim.Native.String.{[], ◌∷◌}

-- Two hyphens in a row.
unfoldable pub has_doubles : String → Bool
has_doubles [] = false
has_doubles (c ∷ s) = (code c == b'-' && starts_dashed s) || has_doubles s

unfoldable pub ends_dashed : String → Bool
ends_dashed [] = false
ends_dashed (c ∷ []) = code c == b'-'
ends_dashed (c ∷ d ∷ s) = ends_dashed (d ∷ s)

-- Letters in lower case and digits, in groups between which one hyphen stands.
abbrev pub IsSlug : String → Type 0
IsSlug s =
    OnlyNameChars s × (starts_dashed s ≡ false) × (ends_dashed s ≡ false) × (has_doubles s ≡ false)

slug_char-name_char : (c : Char) → is_slug_char c ≡ true → is_name_char c ≡ true
unfolding is_slug_char is_name_char
slug_char-name_char c h = ground arith

slug_char-no_dash : (c : Char) → is_slug_char c ≡ true → (code c == b'-') ≡ false
unfolding is_slug_char
slug_char-no_dash c h = ground arith

opened-chars :
    (within : Bool) (s : String) → OnlyNameChars s → OnlyNameChars (if within then s else "-" ∷ s)
unfolding is_name_char
opened-chars true s h = h
opened-chars false s h = (refl, h)

opened-single :
    (within : Bool) (s : String)
    → starts_dashed s ≡ false
    → has_doubles s ≡ false
    → has_doubles (if within then s else "-" ∷ s) ≡ false
unfolding has_doubles
opened-single true s e h = h
opened-single false s e h = rw (e, h) refl

dash_runs-chars : (within : Bool) (s : String) → OnlyNameChars (dash_runs within s)
unfolding dash_runs
dash_runs-chars within [] = tt
dash_runs-chars within (c ∷ s) = elim (Bool-cases (is_slug_char c)) [
  | inl e ↦ rw e (slug_char-name_char c e, dash_runs-chars false s)
  | inr e ↦ rw e (opened-chars within (dash_runs true s) (dash_runs-chars true s))
]

-- Within a run no hyphen is written.
dash_runs-start : (s : String) → starts_dashed (dash_runs true s) ≡ false
unfolding dash_runs starts_dashed
dash_runs-start [] = refl
dash_runs-start (c ∷ s) = elim (Bool-cases (is_slug_char c)) [
  | inl e ↦ rw e (slug_char-no_dash c e)
  | inr e ↦ rw e (dash_runs-start s)
]

dash_runs-single : (within : Bool) (s : String) → has_doubles (dash_runs within s) ≡ false
unfolding dash_runs has_doubles
dash_runs-single within [] = refl
dash_runs-single within (c ∷ s) = elim (Bool-cases (is_slug_char c)) [
  | inl e ↦ rw (e, slug_char-no_dash c e) (dash_runs-single false s)
  | inr e ↦
      rw e (opened-single within (dash_runs true s) (dash_runs-start s) (dash_runs-single true s))
]

name_char-ascii : (c : Char) → is_name_char c ≡ true → leb (code c) 0x7f ≡ true
unfolding is_name_char
name_char-ascii c h = ground arith

name_char-lower :
    (c : Char) → is_name_char c ≡ true → (leb b'A' (code c) && leb (code c) b'Z') ≡ false
unfolding is_name_char
name_char-lower c h = ground arith

-- What is spelled with these characters has no letter to put into lower case.
to_lower-id : (lower : Char → Char) (s : String) → OnlyNameChars s → to_lower lower s ≡ s
unfolding to_lower
to_lower-id lower [] h = refl
to_lower-id lower (c ∷ s) h =
    rw (name_char-ascii c h.0, name_char-lower c h.0)
      (ap (λ (r : String). c ∷ r) (to_lower-id lower s h.1))

trim_left-single : (s : String) → has_doubles s ≡ false → has_doubles (trim_left_dashes s) ≡ false
unfolding trim_left_dashes has_doubles
trim_left-single [] h = refl
trim_left-single (c ∷ s) h = elim (Bool-cases (code c == b'-')) [
  | inl e ↦ rw e (trim_left-single s (ground arith))
  | inr e ↦ rw e h
]

cons_undashed-single :
    (c : Char) (s : String)
    → (code c == b'-' && starts_dashed s) ≡ false
    → has_doubles s ≡ false
    → has_doubles (cons_undashed c s) ≡ false
unfolding has_doubles starts_dashed
cons_undashed-single c [] e h = elim (Bool-cases (code c == b'-')) [
  | inl d ↦ rw d refl
  | inr d ↦ rw d (ground arith)
]
cons_undashed-single c (d ∷ s) e h = ground arith

trim_right-single : (s : String) → has_doubles s ≡ false → has_doubles (trim_right_dashes s) ≡ false
unfolding trim_right_dashes has_doubles
trim_right-single [] h = refl
trim_right-single (c ∷ s) h =
    cons_undashed-single c (trim_right_dashes s)
      (elim (Bool-cases (starts_dashed s)) [
        | inl e ↦ ground arith
        | inr e ↦ rw (trim_right_dashes-start s e) (ground arith)
      ])
      (trim_right-single s (ground arith))

cons_undashed-end :
    (c : Char) (s : String) → ends_dashed s ≡ false → ends_dashed (cons_undashed c s) ≡ false
unfolding ends_dashed
cons_undashed-end c [] h = elim (Bool-cases (code c == b'-')) [ inl d ↦ rw d refl | inr d ↦ rw d d ]
cons_undashed-end c (d ∷ s) h = h

trim_right-end : (s : String) → ends_dashed (trim_right_dashes s) ≡ false
unfolding trim_right_dashes ends_dashed
trim_right-end [] = refl
trim_right-end (c ∷ s) = cons_undashed-end c (trim_right_dashes s) (trim_right-end s)

-- The name that is made of a display name consists of ASCII letters in lower case and digits, in
-- groups between which exactly one hyphen stands; it may be empty.
pub slug-IsSlug : (lower : Char → Char) (display_name : String) → IsSlug (slug lower display_name)
unfolding slug
slug-IsSlug lower display_name =
    let dashed = dash_runs false (to_lower lower display_name) in
    let chars = dash_runs-chars false (to_lower lower display_name) in
    let left = trim_left_dashes dashed in
    rw (to_lower-id lower dashed chars) (
      trim_right_dashes-chars left (trim_left_dashes-chars dashed chars),
      trim_right_dashes-start left (trim_left_dashes-start dashed),
      trim_right-end left,
      trim_right-single left
          (trim_left-single dashed (dash_runs-single false (to_lower lower display_name))),
    )
