-- ===== src/Api/Import/Laws.antt =====
-- On `sanitizeName` of backup_import.go.
use Prim.Native.String.count
use Prim.Native.Nat.{zero}
use Prim.Native.Char.{Char, code}
use Prim.Native.String.{[], ◌∷◌, count}
use kubecp.Common.{
  ℕ, suc, String, ◌≡◌, refl, inl, inr, Bool, true, false, [], ◌∷◌, arith, ◌==◌, leb, Bool-cases,
}
use kubecp.Common.Text.{is_empty, split, trim_slashes, to_lower, replace_char}
use kubecp.Api.Import.{
  is_name_char, keep_name_chars, trim_left_dashes, cons_undashed, trim_right_dashes, take, base,
  or_imported, sanitize_name,
}

-- Only ASCII letters in lower case, digits and hyphens.
abbrev pub OnlyNameChars : String → Type 0
OnlyNameChars [] = Unit
OnlyNameChars (c ∷ s) = (is_name_char c ≡ true) × OnlyNameChars s

unfoldable pub starts_dashed : String → Bool
starts_dashed [] = false
starts_dashed (c ∷ s) = code c == b'-'

abbrev pub IsName : String → Type 0
IsName s =
    OnlyNameChars s × (is_empty s ≡ false) × (starts_dashed s ≡ false) × (leb (count s) 253 ≡ true)

keep_name_chars-chars : (s : String) → OnlyNameChars (keep_name_chars s)
unfolding keep_name_chars
keep_name_chars-chars [] = tt
keep_name_chars-chars (c ∷ s) = elim (Bool-cases (is_name_char c)) [
  | inl e ↦ rw e (e, keep_name_chars-chars s)
  | inr e ↦ rw e (keep_name_chars-chars s)
]

pub trim_left_dashes-chars : (s : String) → OnlyNameChars s → OnlyNameChars (trim_left_dashes s)
unfolding trim_left_dashes
trim_left_dashes-chars [] h = tt
trim_left_dashes-chars (c ∷ s) h = elim (Bool-cases (code c == b'-')) [
  | inl e ↦ rw e (trim_left_dashes-chars s h.1)
  | inr e ↦ rw e h
]

cons_undashed-chars :
    (c : Char) (s : String)
    → is_name_char c ≡ true
    → OnlyNameChars s
    → OnlyNameChars (cons_undashed c s)
cons_undashed-chars c [] e h = elim (Bool-cases (code c == b'-')) [
  | inl d ↦ rw d tt
  | inr d ↦ rw d (e, tt)
]
cons_undashed-chars c (d ∷ s) e h = (e, h)

pub trim_right_dashes-chars : (s : String) → OnlyNameChars s → OnlyNameChars (trim_right_dashes s)
unfolding trim_right_dashes
trim_right_dashes-chars [] h = tt
trim_right_dashes-chars (c ∷ s) h =
    cons_undashed-chars c (trim_right_dashes s) h.0 (trim_right_dashes-chars s h.1)

or_imported-chars : (s : String) → OnlyNameChars s → OnlyNameChars (or_imported s)
unfolding is_name_char
or_imported-chars [] h = (refl, (refl, (refl, (refl, (refl, (refl, (refl, (refl, tt))))))))
or_imported-chars (c ∷ s) h = h

or_imported-some : (s : String) → is_empty (or_imported s) ≡ false
or_imported-some [] = refl
or_imported-some (c ∷ s) = refl

take-chars : (n : ℕ) (s : String) → OnlyNameChars s → OnlyNameChars (take n s)
unfolding take
take-chars zero s h = tt
take-chars (suc n) [] h = tt
take-chars (suc n) (c ∷ s) h = (h.0, take-chars n s h.1)

take-count : (n : ℕ) (s : String) → leb (count (take n s)) n ≡ true
unfolding take
take-count zero s = ground arith
take-count (suc n) [] = ground arith
take-count (suc n) (c ∷ s) = ground (arith, take-count n s, count.cons c (take n s))

take-some : (n : ℕ) (s : String) → is_empty s ≡ false → is_empty (take (suc n) s) ≡ false
unfolding take
take-some n [] h = h
take-some n (c ∷ s) h = refl

pub trim_left_dashes-start : (s : String) → starts_dashed (trim_left_dashes s) ≡ false
unfolding trim_left_dashes starts_dashed
trim_left_dashes-start [] = refl
trim_left_dashes-start (c ∷ s) = elim (Bool-cases (code c == b'-')) [
  | inl e ↦ rw e (trim_left_dashes-start s)
  | inr e ↦ rw e e
]

cons_undashed-start :
    (c : Char) (s : String) → (code c == b'-') ≡ false → starts_dashed (cons_undashed c s) ≡ false
unfolding starts_dashed
cons_undashed-start c [] e = rw e e
cons_undashed-start c (d ∷ s) e = e

pub trim_right_dashes-start :
    (s : String) → starts_dashed s ≡ false → starts_dashed (trim_right_dashes s) ≡ false
unfolding starts_dashed trim_right_dashes
trim_right_dashes-start [] e = refl
trim_right_dashes-start (c ∷ s) e = cons_undashed-start c (trim_right_dashes s) e

or_imported-start : (s : String) → starts_dashed s ≡ false → starts_dashed (or_imported s) ≡ false
unfolding starts_dashed
or_imported-start [] e = refl
or_imported-start (c ∷ s) e = e

take-start : (n : ℕ) (s : String) → starts_dashed s ≡ false → starts_dashed (take n s) ≡ false
unfolding starts_dashed take
take-start zero s e = refl
take-start (suc n) [] e = refl
take-start (suc n) (c ∷ s) e = e

no_slash : (c : Char) → is_name_char c ≡ true → (code c == b'/') ≡ false
unfolding is_name_char
no_slash c h = ground arith

trim_slashes-id : (s : String) → OnlyNameChars s → trim_slashes s ≡ s
unfolding trim_slashes
trim_slashes-id [] h = refl
trim_slashes-id (c ∷ []) h = rw (no_slash c h.0) refl
trim_slashes-id (c ∷ d ∷ s) h = rw (trim_slashes-id (d ∷ s) h.1) refl

split-id : (s : String) → OnlyNameChars s → split b'/' s ≡ s ∷ []
unfolding split
split-id [] h = refl
split-id (c ∷ s) h = rw (split-id s h.1, no_slash c h.0) refl

-- A name without slashes is its own base.
base-id : (s : String) → OnlyNameChars s → is_empty s ≡ false → base s ≡ s
unfolding base
base-id s h e = rw (trim_slashes-id s h, split-id s h, e) refl

cut-IsName :
    (s : String) → OnlyNameChars s → starts_dashed s ≡ false → IsName (take 253 (or_imported s))
cut-IsName s h e =
    let name = or_imported s in
    (
      take-chars 253 name (or_imported-chars s h),
      take-some 252 name (or_imported-some s),
      take-start 253 name (or_imported-start s e),
      take-count 253 name,
    )

base-IsName : (s : String) → IsName s → IsName (base s)
base-IsName s h = rw (base-id s h.0 h.1) h

trimmed-IsName :
    (s : String)
    → OnlyNameChars s
    → IsName (base (take 253 (or_imported (trim_right_dashes (trim_left_dashes s)))))
trimmed-IsName s h =
    let left = trim_left_dashes s in
    base-IsName (take 253 (or_imported (trim_right_dashes left))) (
      cut-IsName (trim_right_dashes left)
        (trim_right_dashes-chars left (trim_left_dashes-chars s h))
        (trim_right_dashes-start left (trim_left_dashes-start s)))

-- A sanitized name is not empty, has at most 253 characters, consists of ASCII letters in lower
-- case, digits and hyphens, and does not begin with a hyphen, whatever the name was.
pub sanitize_name-IsName : (lower : Char → Char) (s : String) → IsName (sanitize_name lower s)
unfolding sanitize_name
sanitize_name-IsName lower s =
    let dashed = replace_char b'.' "-" (replace_char b'_' "-" (to_lower lower s)) in
    let spelled = replace_char b'@' "-at-" dashed in
    trimmed-IsName (keep_name_chars spelled) (keep_name_chars-chars spelled)
