-- ===== src/Common/Text.antt =====
-- Go's `strings` functions that the program calls, on native texts. A text is a list of code points:
-- Go's strings of valid UTF-8, on which these functions agree byte for byte.
pub mod Laws
use Prim.Native.Nat.{ℕ, zero, suc, ◌-◌, ◌/◌, ◌%◌}
use Prim.Native.Char.{Char, code}
use Prim.Native.String.{String, [], ◌∷◌, ◌++◌, char_at}
use mathlib.Core.Bool.{Bool, true, false, ◌&&◌, ◌||◌}
use mathlib.Core.Option.{Option, none, some}
use mathlib.Core.List.{List, [], ◌∷◌}
use text.Mathlib.Text.{◌==◌ as str_eq, starts_with}
use kubecp.Common.Numbers.{ℤ, pos, negsuc}
use kubecp.Common.Tests.{leb, ◌==◌, if◌then◌else◌}

-- `s == ""`
abbrev pub is_empty : String → Bool
is_empty [] = true
is_empty (c ∷ s) = false

-- `strings.HasSuffix`
unfoldable pub has_suffix : String → String → Bool
has_suffix [] t = str_eq [] t
has_suffix (c ∷ s) t = str_eq (c ∷ s) t || has_suffix s t

-- `strings.Contains`
unfoldable pub contains : String → String → Bool
contains [] t = starts_with [] t
contains (c ∷ s) t = starts_with (c ∷ s) t || contains s t

-- `strings.ReplaceAll(s, old, new)` for an old text of one character
unfoldable pub replace_char : ℕ → String → String → String
replace_char old new [] = []
replace_char old new (c ∷ s) =
    let rest = replace_char old new s in if code c == old then new ++ rest else c ∷ rest

-- `unicode.IsSpace`
unfoldable pub is_space : ℕ → Bool
is_space c =
    (leb 0x9 c && leb c 0xd)
    || c == 0x20
    || c == 0x85
    || c == 0xa0
    || c == 0x1680
    || (leb 0x2000 c && leb c 0x200a)
    || c == 0x2028
    || c == 0x2029
    || c == 0x202f
    || c == 0x205f
    || c == 0x3000

-- One character in front of a text that is trimmed at its end.
abbrev cons_trimmed : Char → String → String
cons_trimmed c [] = if is_space (code c) then [] else c ∷ []
cons_trimmed c (d ∷ s) = c ∷ d ∷ s

trim_left : String → String
trim_left [] = []
trim_left (c ∷ s) = if is_space (code c) then trim_left s else c ∷ s

trim_right : String → String
trim_right [] = []
trim_right (c ∷ s) = cons_trimmed c (trim_right s)

-- `strings.TrimSpace`
unfoldable pub trim_space : String → String
unfolding trim_left trim_right is_space
trim_space s = trim_right (trim_left s)

-- `strings.TrimRight(s, "/")`
abbrev cons_unslashed : Char → String → String
cons_unslashed c [] = if code c == b'/' then [] else c ∷ []
cons_unslashed c (d ∷ s) = c ∷ d ∷ s

unfoldable pub trim_slashes : String → String
trim_slashes [] = []
trim_slashes (c ∷ s) = cons_unslashed c (trim_slashes s)

abbrev cons_first : Char → Option (String × String) → Option (String × String)
cons_first c none = none
cons_first c (some (a, b)) = some (c ∷ a, b)

-- `strings.SplitN(s, sep, 2)` for a separator of one character: both parts, if there are two.
unfoldable pub split_once : ℕ → String → Option (String × String)
split_once sep [] = none
split_once sep (c ∷ s) = if code c == sep then some ([], s) else cons_first c (split_once sep s)

-- The number of fields of a text, given whether a field is open: `len(strings.Fields(s))`.
count_fields : Bool → String → ℕ
count_fields inside [] = if inside then 1 else 0
count_fields inside (c ∷ s) =
    let closed = count_fields false s in
    let opened = count_fields true s in
    if is_space (code c) then (if inside then suc closed else closed) else opened

unfoldable pub fields_count : String → ℕ
unfolding count_fields is_space
fields_count s = count_fields false s

-- `strings.Split(s, sep)` for a separator of one character.
abbrev pub cons_head : Char → List String → List String
cons_head c [] = (c ∷ []) ∷ []
cons_head c (a ∷ r) = (c ∷ a) ∷ r

unfoldable pub split : ℕ → String → List String
split sep [] = [] ∷ []
split sep (c ∷ s) = let rest = split sep s in if code c == sep then [] ∷ rest else cons_head c rest

abbrev ascii_upper : Char → Char
ascii_upper c =
    if leb b'a' (code c) && leb (code c) b'z'
    then char_at "ABCDEFGHIJKLMNOPQRSTUVWXYZ" (code c - b'a')
    else c

abbrev ascii_lower : Char → Char
ascii_lower c =
    if leb b'A' (code c) && leb (code c) b'Z'
    then char_at "abcdefghijklmnopqrstuvwxyz" (code c - b'A')
    else c

abbrev each : (Char → Char) → String → String
each f [] = []
each f (c ∷ s) = f c ∷ each f s

-- `strings.ToUpper`; `upper` is `unicode.ToUpper` on what is not ASCII.
unfoldable pub to_upper : (Char → Char) → String → String
to_upper upper s = each (λ c. if leb (code c) 0x7f then ascii_upper c else upper c) s

-- `strings.ToLower`; `lower` is `unicode.ToLower` on what is not ASCII.
unfoldable pub to_lower : (Char → Char) → String → String
to_lower lower s = each (λ c. if leb (code c) 0x7f then ascii_lower c else lower c) s

-- `strings.EqualFold`; `fold` is the least member of the folding orbit of what is not ASCII.
unfoldable pub fold_case : (Char → Char) → String → String
fold_case fold s = each (λ c. if leb (code c) 0x7f then ascii_lower c else fold c) s

unfoldable pub equal_fold_by : (Char → Char) → String → String → Bool
equal_fold_by fold s t = str_eq (fold_case fold s) (fold_case fold t)

-- `strings.EqualFold(s, t)` for a text t in ASCII without `k` and `s`, the two letters that fold
-- with characters that are not ASCII.
unfoldable pub equal_fold : String → String → Bool
equal_fold s t = str_eq (each ascii_lower s) (each ascii_lower t)

-- Decimal digits, the last first; the fuel is above the number.
digit : ℕ → Char
digit n = char_at "0123456789" n

show_digits : ℕ → ℕ → String → String
show_digits zero n acc = acc
show_digits (suc f) n acc =
    let more = show_digits f (n / 10) (digit (n % 10) ∷ acc) in if n == 0 then acc else more

-- `%d` of a number that is not negative
unfoldable pub show_nat : ℕ → String
unfolding show_digits digit
show_nat n = if n == 0 then "0" else show_digits (suc n) n ""

-- `%d`
abbrev pub show_int : ℤ → String
show_int (pos n) = show_nat n
show_int (negsuc n) = "-" ++ show_nat (suc n)
