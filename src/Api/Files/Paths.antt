-- ===== src/Api/Files/Paths.antt =====
-- `sanitizePath` of filemanager.go, with `filepath.Clean` of Go's standard library.
pub mod Laws
use Prim.Native.Char.{Char, code}
use Prim.Native.String.{[], ◌∷◌}
use kubecp.Common.{
  String, ◌<>◌, str_eq, Bool, true, false, ◌||◌, ◌&&◌, ◌==◌, List, [], ◌∷◌, if◌then◌else◌,
}
use kubecp.Common.Text.{is_empty, split}

-- `strings.Contains(s, "..")`
unfoldable pub has_dots : String → Bool
has_dots [] = false
has_dots (c ∷ []) = false
has_dots (c ∷ d ∷ s) = (code c == b'.' && code d == b'.') || has_dots (d ∷ s)

abbrev pub is_rooted : String → Bool
is_rooted [] = false
is_rooted (c ∷ s) = code c == b'/'

-- `..` behind the elements that are kept, the last one in front.
unfoldable pub go_up : Bool → List String → List String
go_up rooted [] = if rooted then [] else ".." ∷ []
go_up rooted (top ∷ rest) = if str_eq top ".." then ".." ∷ top ∷ rest else rest

-- The elements of the path, one by one, behind those that are kept.
unfoldable pub clean_parts : Bool → List String → List String → List String
clean_parts rooted kept [] = kept
clean_parts rooted kept (x ∷ xs) =
    let same = clean_parts rooted kept xs in
    let up = clean_parts rooted (go_up rooted kept) xs in
    let down = clean_parts rooted (x ∷ kept) xs in
    if is_empty x || str_eq x "." then same else if str_eq x ".." then up else down

-- The elements between slashes, the last one in front of the list.
unfoldable pub join_path : List String → String
join_path [] = ""
join_path (x ∷ []) = x
join_path (x ∷ y ∷ rest) = join_path (y ∷ rest) <> "/" <> x

abbrev cleaned : Bool → List String → String
cleaned true kept = "/" <> join_path kept
cleaned false [] = "."
cleaned false (x ∷ kept) = join_path (x ∷ kept)

-- `filepath.Clean`; the empty path is ".".
unfoldable pub clean : String → String
clean path = cleaned (is_rooted path) (clean_parts (is_rooted path) [] (split b'/' path))

-- `strings.TrimPrefix(path, "/")`
unfoldable pub trim_slash : String → String
trim_slash [] = []
trim_slash (c ∷ s) = if code c == b'/' then s else c ∷ s

-- `sanitizePath`
unfoldable pub sanitize_path : String → String
sanitize_path path = let p = trim_slash (clean path) in if has_dots p then "" else p
