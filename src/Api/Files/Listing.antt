-- ===== src/Api/Files/Listing.antt =====
-- `parseLsOutput` of filemanager.go.
pub mod Laws
use Prim.Native.Char.{Char, code}
use Prim.Native.String.{[], ◌∷◌}
use text.Mathlib.Text.{starts_with}
use kubecp.Common.{
  ℕ, ◌+◌, ◌*◌, ◌-◌, suc, ltb, leb, ◌==◌, ℤ, pos, negsuc, String, ◌<>◌, str_eq, Bool, true, false,
  ◌&&◌, ◌||◌, Option, none, some, List, [], ◌∷◌, if◌then◌else◌,
}
use kubecp.Common.Text.{is_empty, is_space, trim_space, split, cons_head}

pub record FileEntry : Type 0 where
  pub name : String
  pub path : String
  pub is_dir : Bool
  pub size : ℤ
  pub permissions : String
  pub mod_time : String

-- `strings.Fields`
unfoldable pub fields : String → List String
fields [] = []
fields (c ∷ []) = if is_space (code c) then [] else (c ∷ []) ∷ []
fields (c ∷ d ∷ s) =
    let rest = fields (d ∷ s) in
    if is_space (code c)
    then rest
    else if is_space (code d)
    then (c ∷ []) ∷ rest
    else cons_head c rest

-- `strings.Join(parts, " ")`
unfoldable pub join_words : List String → String
join_words [] = ""
join_words (x ∷ []) = x
join_words (x ∷ y ∷ rest) = x <> " " <> join_words (y ∷ rest)

-- The digits at the front of a text, behind those that were read.
abbrev is_digit : Char → Bool
is_digit c = leb b'0' (code c) && leb (code c) b'9'

unfoldable pub read_digits : ℕ → String → ℕ
read_digits n [] = n
read_digits n (c ∷ s) =
    let more = read_digits (n * 10 + (code c - b'0')) s in if is_digit c then more else n

-- A number that is out of the range of int64 is an error, which leaves the variable at 0.
abbrev int64_pos : ℕ → ℤ
int64_pos n = if ltb n 9223372036854775808 then pos n else pos 0

abbrev int64_neg : ℕ → ℤ
int64_neg n = if n == 0 then pos 0 else if leb n 9223372036854775808 then negsuc (n - 1) else pos 0

-- `fmt.Sscanf(text, "%d", &size)` on a text without blanks, for a variable that holds 0.
unfoldable pub scan_int : String → ℤ
scan_int [] = pos 0
scan_int (c ∷ s) =
    if code c == b'-'
    then int64_neg (read_digits 0 s)
    else if code c == b'+'
    then int64_pos (read_digits 0 s)
    else int64_pos (read_digits 0 (c ∷ s))

-- `strings.TrimSuffix(path, "/")`
unfoldable pub trim_slash_end : String → String
trim_slash_end [] = []
trim_slash_end (c ∷ []) = if code c == b'/' then [] else c ∷ []
trim_slash_end (c ∷ d ∷ s) = c ∷ trim_slash_end (d ∷ s)

abbrev pub child_path : String → String → String
child_path base name =
    if str_eq base "." || is_empty base then name else trim_slash_end base <> "/" <> name

-- The entry for the fields of a line: at least nine, and not one of the two dot entries.
unfoldable pub entry_of : String → List String → Option FileEntry
entry_of base (perms ∷ links ∷ user ∷ group ∷ size ∷ month ∷ day ∷ time ∷ first ∷ more) =
    let name = join_words (first ∷ more) in
    if str_eq name "." || str_eq name ".."
    then none
    else some (record {
      name = name;
      path = child_path base name;
      is_dir = starts_with perms "d";
      size = scan_int size;
      permissions = perms;
      mod_time = month <> " " <> day <> " " <> time;
    })
entry_of base _ = none

abbrev pub cons_entry : Option FileEntry → List FileEntry → List FileEntry
cons_entry none rest = rest
cons_entry (some e) rest = e ∷ rest

-- The loop over the lines.
unfoldable pub parse_lines : String → List String → List FileEntry
parse_lines base [] = []
parse_lines base (line ∷ lines) =
    let rest = parse_lines base lines in
    let text = trim_space line in
    if is_empty text || starts_with text "total"
    then rest
    else cons_entry (entry_of base (fields text)) rest

-- `parseLsOutput`
unfoldable pub parse_ls_output : String → String → List FileEntry
parse_ls_output output base = parse_lines base (split 0x0a output)
