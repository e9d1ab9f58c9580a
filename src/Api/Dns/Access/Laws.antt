-- ===== src/Api/Dns/Access/Laws.antt =====
-- On the access checks of dns.go.
use kubecp.Common.{
  str_eq, eq_iff, ◌≡◌, ◌≢◌, refl, ◌↔◌, ◌⊎◌, inl, inr, Bool, true, false, some, List, [], ◌∷◌, arith,
  Bool-decides, ◌||◌,
}
use kubecp.Common.Text.Laws.{is_empty_iff}
use kubecp.Http.{TokenClaims}
use kubecp.Middleware.Rbac.{has_role}
use kubecp.Middleware.Rbac.Laws.{HasRole, has_role_iff}
use kubecp.Powerdns.{Zone}
use kubecp.Api.Dns.Data.{ZoneResponse}
use kubecp.Api.Dns.Access.{can_access_zone, is_listed, listed_zones, view_of}

-- The zone is the caller's, or the caller is an admin.
abbrev pub Owns : TokenClaims → Zone → Type 0
Owns c z = HasRole (some c) "admin" ⊎ (z.account ≡ c.username)

-- A caller reaches exactly the zones that he owns and the zones without an account.
can_access_zone_iff :
    (c : TokenClaims) (z : Zone)
    → (can_access_zone (some c) z ≡ some true) ↔ (Owns c z ⊎ (z.account ≡ ""))
unfolding can_access_zone
can_access_zone_iff c z =
    ground
      (arith, has_role_iff (some c) "admin", is_empty_iff z.account, eq_iff z.account c.username)

owns : TokenClaims → Zone → Bool
owns c z = has_role (some c) "admin" || str_eq z.account c.username

owns_iff : (c : TokenClaims) (z : Zone) → (owns c z ≡ true) ↔ Owns c z
unfolding owns
owns_iff c z = ground (arith, has_role_iff (some c) "admin", eq_iff z.account c.username)

is_listed-eq-owns : (c : TokenClaims) (z : Zone) → is_listed (some c) z ≡ some (owns c z)
unfolding is_listed owns
is_listed-eq-owns c z = ground arith

-- The views of the zones that the caller owns, in order.
pub data Picks (c : TokenClaims) : List Zone → List ZoneResponse → Type 0 where
  done : Picks c [] []
  take :
      {z : Zone} {zs : List Zone} {l : List ZoneResponse}
      → Owns c z
      → Picks c zs l
      → Picks c (z ∷ zs) (view_of z ∷ l)
  skip :
      {z : Zone} {zs : List Zone} {l : List ZoneResponse}
      → (¬ Owns c z)
      → Picks c zs l
      → Picks c (z ∷ zs) l

-- `ListZones` shows a caller with claims exactly the zones that he owns, in the server's order.
pub listed_zones-Picks :
    (c : TokenClaims) (zs : List Zone)
    → (l : List ZoneResponse) × (listed_zones (some c) zs ≡ some l) × Picks c zs l
unfolding listed_zones
listed_zones-Picks c [] = ([], refl, done)
listed_zones-Picks c (z ∷ zs) =
    let (l, e, k) = listed_zones-Picks c zs in
    elim (Bool-decides (owns c z) (owns_iff c z)) [
      | inl (o, t) ↦ (view_of z ∷ l, rw (is_listed-eq-owns, e, t), take o k)
      | inr (o, t) ↦ (l, rw (is_listed-eq-owns, e, t), skip o k)
    ]

-- A zone without an account is open to every caller, though the list shows it only to an admin.
accountless_zone :
    (c : TokenClaims) (z : Zone)
    → z.account ≡ ""
    → c.username ≢ ""
    → ¬ HasRole (some c) "admin"
    → (can_access_zone (some c) z ≡ some true) × (is_listed (some c) z ≡ some false)
unfolding can_access_zone is_listed
accountless_zone c z e named plain =
    ground
      (arith, has_role_iff (some c) "admin", is_empty_iff z.account, eq_iff z.account c.username)
