-- ===== src/Api/Import.antt =====
-- `sanitizeName` of backup_import.go, with `filepath.Base` of Go's standard library.
pub mod Laws
pub mod Tests
use Prim.Native.Nat.{zero}
use Prim.Native.Char.{Char, code}
use Prim.Native.String.{[], ◌∷◌}
use kubecp.Common.{ℕ, suc, String, ◌<>◌, Bool, ◌||◌, ◌&&◌, ◌==◌, leb, List, [], ◌∷◌, if◌then◌else◌}
use kubecp.Common.Text.{is_empty, split, trim_slashes, to_lower, replace_char}

-- `(c >= 'a' && c <= 'z') || (c >= '0' && c <= '9') || c == '-'`
unfoldable pub is_name_char : Char → Bool
is_name_char c =
    (leb b'a' (code c) && leb (code c) b'z')
    || (leb b'0' (code c) && leb (code c) b'9')
    || code c == b'-'

-- The loop that writes the characters that may stay.
unfoldable pub keep_name_chars : String → String
keep_name_chars [] = []
keep_name_chars (c ∷ s) = let rest = keep_name_chars s in if is_name_char c then c ∷ rest else rest

-- `strings.Trim(s, "-")`
unfoldable pub trim_left_dashes : String → String
trim_left_dashes [] = []
trim_left_dashes (c ∷ s) = let rest = trim_left_dashes s in if code c == b'-' then rest else c ∷ s

abbrev pub cons_undashed : Char → String → String
cons_undashed c [] = if code c == b'-' then [] else c ∷ []
cons_undashed c (d ∷ s) = c ∷ d ∷ s

unfoldable pub trim_right_dashes : String → String
trim_right_dashes [] = []
trim_right_dashes (c ∷ s) = cons_undashed c (trim_right_dashes s)

-- `s[:n]` of a text in ASCII that may be shorter
unfoldable pub take : ℕ → String → String
take zero s = []
take (suc n) [] = []
take (suc n) (c ∷ s) = c ∷ take n s

abbrev pub last_part : List String → String
last_part [] = ""
last_part (x ∷ []) = x
last_part (x ∷ y ∷ rest) = last_part (y ∷ rest)

abbrev pub or_root : String → String
or_root s = if is_empty s then "/" else s

-- `filepath.Base`
unfoldable pub base : String → String
base s = if is_empty s then "." else or_root (last_part (split b'/' (trim_slashes s)))

abbrev pub or_imported : String → String
or_imported name = if is_empty name then "imported" else name

-- `sanitizeName`; `take` also stands for the test of the length, as it leaves a shorter name.
unfoldable pub sanitize_name : (Char → Char) → String → String
sanitize_name lower s =
    let dashed = replace_char b'.' "-" (replace_char b'_' "-" (to_lower lower s)) in
    let kept = keep_name_chars (replace_char b'@' "-at-" dashed) in
    base (take 253 (or_imported (trim_right_dashes (trim_left_dashes kept))))
