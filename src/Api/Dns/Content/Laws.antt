-- ===== src/Api/Dns/Content/Laws.antt =====
-- On the validation of record contents in dns.go.
use Prim.Native.String.{[], ◌∷◌}
use kubecp.Common.{
  String, ◌<>◌, Char, code, ◌≡◌, inl, inr, Bool, true, ◌||◌, List, [], ◌∷◌, arith, ◌==◌, All,
  Bool-cases,
}
use kubecp.Common.Text.{split, cons_head, to_upper}
use kubecp.Common.Text.Laws.{has_suffix-append}
use kubecp.Common.Exec.{ok}
use kubecp.Api.Dns.Data.{Platform}
use kubecp.Api.Dns.Content.{
  is_letter, is_alnum, label_rest, is_label, all_letters, are_labels, drop_dot, hostname_matches,
  validate_record_content,
}

-- A letter, a digit, a hyphen or a dot.
unfoldable pub host_char : Char → Bool
unfolding is_alnum is_letter
host_char c = is_alnum (code c) || code c == b'-' || code c == b'.'

abbrev pub OnlyHostChars : String → Type 0
OnlyHostChars [] = Unit
OnlyHostChars (c ∷ s) = (host_char c ≡ true) × OnlyHostChars s

label_rest-chars : (s : String) → label_rest s ≡ true → OnlyHostChars s
unfolding label_rest host_char
label_rest-chars [] h = tt
label_rest-chars (c ∷ []) h = ground arith
label_rest-chars (c ∷ d ∷ s) h = ground (arith, label_rest-chars (d ∷ s))

is_label-chars : (s : String) → is_label s ≡ true → OnlyHostChars s
unfolding is_label host_char
is_label-chars [] h = tt
is_label-chars (c ∷ s) h = ground (arith, label_rest-chars s)

all_letters-chars : (s : String) → all_letters s ≡ true → OnlyHostChars s
unfolding all_letters host_char is_letter
all_letters-chars [] h = tt
all_letters-chars (c ∷ s) h = ground (arith, all_letters-chars s)

are_labels-chars : (l : List String) → are_labels l ≡ true → All OnlyHostChars l
unfolding are_labels
are_labels-chars [] h = tt
are_labels-chars (x ∷ []) h = cc
are_labels-chars (x ∷ y ∷ []) h = ground (arith, is_label-chars x, all_letters-chars y)
are_labels-chars (x ∷ y ∷ z ∷ rest) h =
    ground (arith, is_label-chars x, are_labels-chars (y ∷ z ∷ rest))

uncons-chars :
    (c : Char) (l : List String)
    → All OnlyHostChars (cons_head c l)
    → (host_char c ≡ true) × All OnlyHostChars l
uncons-chars c [] h = (h.0.0, tt)
uncons-chars c (a ∷ r) h = (h.0.0, (h.0.1, h.1))

-- A text that splits at its dots into such parts has only such characters.
split-chars : (s : String) → All OnlyHostChars (split b'.' s) → OnlyHostChars s
unfolding split host_char
split-chars [] h = tt
split-chars (c ∷ s) h = elim (Bool-cases (code c == b'.')) [
  | inl e ↦ (ground arith, split-chars s (rw (e, split) at h).1)
  | inr e ↦ let k = uncons-chars c (split b'.' s) (rw (e, split) at h) in (k.0, split-chars s k.1)
]

drop_dot-chars : (s : String) → OnlyHostChars (drop_dot s) → OnlyHostChars s
unfolding drop_dot host_char
drop_dot-chars [] h = tt
drop_dot-chars (c ∷ []) h = ground arith
drop_dot-chars (c ∷ d ∷ s) h = (h.0, drop_dot-chars (d ∷ s) h.1)

-- A host name that the pattern accepts consists of ASCII letters, digits, hyphens and dots.
hostname_matches-chars : (s : String) → hostname_matches s ≡ true → OnlyHostChars s
unfolding hostname_matches
hostname_matches-chars s h =
    drop_dot-chars s (split-chars (drop_dot s) (are_labels-chars (split b'.' (drop_dot s)) h))

-- Any content with a final dot is accepted for a CNAME, whatever stands before the dot.
dotted_content_passes :
    (p : Platform) (s : String) → validate_record_content p "CNAME" (s <> ".") ≡ ok tt
unfolding validate_record_content to_upper
dotted_content_passes p s = rw (has_suffix-append s ".") (ground arith)
