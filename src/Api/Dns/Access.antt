-- ===== src/Api/Dns/Access.antt =====
-- Who may reach a zone, in dns.go.
pub mod Laws
use kubecp.Common.{
  String, str_eq, Bool, true, false, ◌||◌, Option, none, some, List, [], ◌∷◌, if◌then◌else◌,
}
use kubecp.Common.Text.{is_empty}
use kubecp.Http.{TokenClaims}
use kubecp.Middleware.Rbac.{has_role}
use kubecp.Powerdns.{Zone}
use kubecp.Api.Dns.Data.{ZoneResponse}

-- `zone.Account == claims.Username`, which panics on nil claims
abbrev owned_by : Option TokenClaims → Zone → Option Bool
owned_by none zone = none
owned_by (some claims) zone = some (str_eq zone.account claims.username)

-- `canAccessZone`: `none` stands for the panic.
unfoldable pub can_access_zone : Option TokenClaims → Zone → Option Bool
can_access_zone claims zone =
    if has_role claims "admin"
    then some true
    else (if is_empty zone.account then some true else owned_by claims zone)

abbrev pub view_of : Zone → ZoneResponse
view_of z = record { id = z.id; name = z.name; kind = z.kind; serial = z.serial }

-- The test of the loop in `ListZones`.
unfoldable pub is_listed : Option TokenClaims → Zone → Option Bool
is_listed claims zone = if has_role claims "admin" then some true else owned_by claims zone

abbrev cons_if : Zone → Option Bool → Option (List ZoneResponse) → Option (List ZoneResponse)
cons_if z none rest = none
cons_if z (some b) none = none
cons_if z (some b) (some rest) = some (if b then view_of z ∷ rest else rest)

-- The loop of `ListZones`.
unfoldable pub listed_zones : Option TokenClaims → List Zone → Option (List ZoneResponse)
listed_zones claims [] = some []
listed_zones claims (z ∷ zs) = cons_if z (is_listed claims z) (listed_zones claims zs)
