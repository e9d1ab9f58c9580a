-- ===== src/Api/Plans/Slug.antt =====
-- The name that hostingplans.go makes of a plan's display name.
pub mod Laws
use Prim.Native.Char.{Char, code}
use Prim.Native.String.{[], ◌∷◌}
use kubecp.Common.{String, Bool, true, false, ◌||◌, ◌&&◌, leb, [], ◌∷◌, if◌then◌else◌}
use kubecp.Common.Text.{to_lower}
use kubecp.Api.Import.{trim_left_dashes, trim_right_dashes}

unfoldable pub is_slug_char : Char → Bool
is_slug_char c =
    (leb b'a' (code c) && leb (code c) b'z') || (leb b'0' (code c) && leb (code c) b'9')

-- `ReplaceAllString(s, "-")` for `[^a-z0-9]+`: one hyphen for a run of other characters. `within` is
-- whether such a run is open.
unfoldable pub dash_runs : Bool → String → String
dash_runs within [] = []
dash_runs within (c ∷ s) =
    let kept = dash_runs false s in
    let skipped = dash_runs true s in
    if is_slug_char c then c ∷ kept else if within then skipped else "-" ∷ skipped

unfoldable pub slug : (Char → Char) → String → String
slug lower display_name =
    let dashed = to_lower lower (dash_runs false (to_lower lower display_name)) in
    trim_right_dashes (trim_left_dashes dashed)
