-- ===== src/Api/Dns/Content.antt =====
-- The validation of record types and contents in dns.go.
pub mod Laws
use Prim.Native.String.{[], ◌∷◌, count}
use kubecp.Common.{
  ℕ, String, ◌<>◌, Char, code, str_eq, Bool, true, false, not, ◌&&◌, ◌||◌, Option, none, some, List,
  [], ◌∷◌, any, leb, ◌==◌, if◌then◌else◌,
}
use kubecp.Common.Text.{is_empty, has_suffix, split, split_once, fields_count, trim_space, to_upper}
use kubecp.Common.Exec.{Result, ok, err}
use kubecp.Api.Dns.Data.{Platform, IpFamily, v4, v6}

-- `validRecordTypes`
abbrev pub valid_record_types : List String
valid_record_types = "A" ∷ "AAAA" ∷ "CNAME" ∷ "MX" ∷ "TXT" ∷ "SRV" ∷ "NS" ∷ "SOA" ∷ "PTR" ∷ []

is_letter : ℕ → Bool
is_letter c = (leb b'a' c && leb c b'z') || (leb b'A' c && leb c b'Z')

is_alnum : ℕ → Bool
is_alnum c = is_letter c || (leb b'0' c && leb c b'9')

-- The characters of a label behind its first.
label_rest : String → Bool
label_rest [] = true
label_rest (c ∷ []) = is_alnum (code c)
label_rest (c ∷ d ∷ s) = (is_alnum (code c) || code c == b'-') && label_rest (d ∷ s)

-- `[a-zA-Z0-9]([a-zA-Z0-9\-]{0,61}[a-zA-Z0-9])?`
is_label : String → Bool
is_label [] = false
is_label (c ∷ s) = is_alnum (code c) && label_rest s && leb (count (c ∷ s)) 63

all_letters : String → Bool
all_letters [] = true
all_letters (c ∷ s) = is_letter (code c) && all_letters s

-- `(label\.)+[a-zA-Z]{2,}` on the parts between the dots
are_labels : List String → Bool
are_labels [] = false
are_labels (x ∷ []) = false
are_labels (x ∷ y ∷ []) = is_label x && all_letters y && leb 2 (count y)
are_labels (x ∷ y ∷ z ∷ rest) = is_label x && are_labels (y ∷ z ∷ rest)

-- `\.?$`
drop_dot : String → String
drop_dot [] = []
drop_dot (c ∷ []) = if code c == b'.' then [] else c ∷ []
drop_dot (c ∷ d ∷ s) = c ∷ drop_dot (d ∷ s)

-- `hostnameRegex.MatchString`
unfoldable pub hostname_matches : String → Bool
unfolding is_letter is_alnum label_rest is_label all_letters are_labels drop_dot split
hostname_matches s = are_labels (split b'.' (drop_dot s))

module _ (p : Platform) where
  unfoldable pub validate_record_type : String → Bool
  validate_record_type t = any (λ v. str_eq v (to_upper p.upper t)) valid_record_types

  unfoldable pub validate_ipv4 : String → Bool
  validate_ipv4 ip = elim (p.parse_ip ip) [ some v4 ↦ true | _ ↦ false ]

  unfoldable pub validate_ipv6 : String → Bool
  validate_ipv6 ip = elim (p.parse_ip ip) [ some v6 ↦ true | _ ↦ false ]

  abbrev check : Bool → String → Result String (Unit {0})
  check good message = if good then ok tt else err message

  abbrev has_two_parts : String → Bool
  has_two_parts s = elim (split_once b' ' s) [ none ↦ false | some _ ↦ true ]

  -- The cases of the `switch`, on the type in upper case.
  content_check : String → String → Result String (Unit {0})
  content_check t content =
      if str_eq t "A"
      then check (validate_ipv4 content) ("invalid IPv4 address: " <> content)
      else if str_eq t "AAAA"
      then check (validate_ipv6 content) ("invalid IPv6 address: " <> content)
      else if str_eq t "CNAME" || str_eq t "NS" || str_eq t "PTR"
      then check (hostname_matches content || has_suffix content ".")
          ("invalid hostname: " <> content)
      else if str_eq t "MX"
      then check (has_two_parts content)
          ("MX record must be in format 'priority hostname': " <> content)
      else if str_eq t "TXT"
      then check (not (is_empty (trim_space content))) "TXT record content cannot be empty"
      else if str_eq t "SRV"
      then check (fields_count content == 4)
          ("SRV record must be in format 'priority weight port target': " <> content)
      else ok tt

  unfoldable pub validate_record_content : String → String → Result String (Unit {0})
  unfolding content_check
  validate_record_content record_type content = content_check (to_upper p.upper record_type) content
