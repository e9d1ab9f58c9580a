-- ===== src/Api/Dns/Names.antt =====
-- Zone and record names of dns.go.
pub mod Laws
use kubecp.Common.{String, ◌<>◌, str_eq, Bool, ◌||◌, not, if◌then◌else◌}
use kubecp.Common.Text.{is_empty, has_suffix}
use kubecp.Common.Exec.{Result, ok, err}

-- `ensureTrailingDot`
unfoldable pub ensure_trailing_dot : String → String
ensure_trailing_dot name = if not (has_suffix name ".") then name <> "." else name

-- `fmt.Errorf("record name %q is outside zone %q", …)`; `quote` is the verb %q
abbrev outside_zone : (String → String) → String → String → String
outside_zone quote name zone_name =
    "record name " <> quote name <> " is outside zone " <> quote zone_name

-- `resolveRecordName`
unfoldable pub resolve_record_name : (String → String) → String → String → Result String String
resolve_record_name quote name zone_name =
    let zone_fqdn = ensure_trailing_dot zone_name in
    let fqdn = ensure_trailing_dot name in
    if str_eq name "@" || is_empty name
    then ok zone_fqdn
    else if str_eq fqdn zone_fqdn || has_suffix fqdn ("." <> zone_fqdn)
    then ok fqdn
    else if not (has_suffix name ".")
    then ok (name <> "." <> zone_fqdn)
    else err (outside_zone quote name zone_name)
