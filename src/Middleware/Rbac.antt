-- ===== src/Middleware/Rbac.antt =====
-- panel-core/internal/middleware/rbac.go
pub mod Laws
use kubecp.Common.{
  ℕ, String, ◌<>◌, str_eq, Bool, true, false, ◌&&◌, Option, none, some, List, [], ◌∷◌, any,
  if◌then◌else◌, not,
}
use kubecp.Common.Text.{is_empty}
use kubecp.Http.{Handler, Request, TokenClaims, Exit, reply, write_error}

-- `allowed[role]`: the map that `RequireRole` builds from its arguments
abbrev pub allowed : List String → String → Bool
allowed roles role = any (λ r. str_eq r role) roles

module _ {P W : Type 0} where
  -- `writeMiddlewareError`
  abbrev pub deny : ℕ → String → String → W → Exit P × W
  deny status code message w = (reply (write_error status code message none), w)

  -- the handler's body once the claims are known
  abbrev with_role : List String → TokenClaims → (W → Exit P × W) → W → Exit P × W
  with_role roles claims next w =
      if any (allowed roles) claims.roles
      then next w
      else deny 403 "FORBIDDEN" "Insufficient permissions" w

module _ {E P W : Type 0} where
  unfoldable pub require_role : List String → Handler E P W → Handler E P W
  require_role roles next r w = elim r.claims [
    | none ↦ deny 401 "UNAUTHORIZED" "Authentication required" w
    | some claims ↦ with_role roles claims (next r) w
  ]

  unfoldable pub require_admin : Handler E P W → Handler E P W
  unfolding require_role
  require_admin = require_role ("admin" ∷ [])

unfoldable pub has_role : Option TokenClaims → String → Bool
has_role none role = false
has_role (some claims) role = any (λ r. str_eq r role) claims.roles

-- `fmt.Sprintf("hosting-user-%s", claims.Username)`
abbrev pub user_namespace : TokenClaims → String
user_namespace claims = "hosting-user-" <> claims.username

-- The namespace that a request names: the query parameter, or else the header.
pub target_namespace : {E : Type 0} → String → Request E → String
target_namespace param r =
    let asked = if is_empty param then "" else r.query param in
    if is_empty asked then r.header "X-Hosting-Namespace" else asked

module _ {E P W : Type 0} where
  abbrev with_claims : String → TokenClaims → Handler E P W → Handler E P W
  with_claims param claims next r w =
      if has_role (some claims) "admin"
      then next r w
      else if is_empty (target_namespace param r)
      then next r w
      else if not (str_eq (target_namespace param r) (user_namespace claims))
      then deny 403 "FORBIDDEN" "Access denied: resource belongs to another user" w
      else next r w

  unfoldable pub require_ownership : String → Handler E P W → Handler E P W
  unfolding target_namespace
  require_ownership param next r w = elim r.claims [
    | none ↦ deny 401 "UNAUTHORIZED" "Authentication required" w
    | some claims ↦ with_claims param claims next r w
  ]

unfoldable pub is_owner : Option TokenClaims → String → Bool
unfolding has_role
is_owner none namespace = false
is_owner (some claims) namespace =
    if has_role (some claims) "admin" then true else str_eq namespace (user_namespace claims)

abbrev label_is : Option String → String → Bool
label_is none user = str_eq "" user
label_is (some l) user = str_eq l user

-- `labels` is the object's label map, `none` if it is nil; a missing key reads as "".
unfoldable pub is_owner_by_label : Option TokenClaims → Option (String → Option String) → Bool
unfolding has_role
is_owner_by_label none labels = false
is_owner_by_label (some claims) none = has_role (some claims) "admin"
is_owner_by_label (some claims) (some labels) =
    if has_role (some claims) "admin"
    then true
    else label_is (labels "hosting.panel/user") claims.username
