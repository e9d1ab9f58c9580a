-- ===== src/Middleware/Rbac/Laws.antt =====
-- Who passes the checks of rbac.go.
use kubecp.Common.{
  String, str_eq, eq_iff, ◌≡◌, ◌↔◌, ◌⊎◌, inl, inr, Bool, true, ◌||◌, Option, none, some, List, any,
  Any, any_iff, arith, Bool-decides, Option-cases,
}
use kubecp.Common.Text.{is_empty}
use kubecp.Common.Text.Laws.{is_empty_iff}
use kubecp.Http.{Handler, Request, TokenClaims}
use kubecp.Middleware.Rbac.{
  allowed, deny, require_role, has_role, user_namespace, target_namespace, require_ownership,
  is_owner_by_label, label_is,
}

-- One of the roles is held.
abbrev pub Holds : List String → TokenClaims → Type 0
Holds roles claims = Any (λ r. Any (λ a. a ≡ r) roles) claims.roles

-- The role itself is held.
abbrev pub HasRole : Option TokenClaims → String → Type 0
HasRole none role = ⊥
HasRole (some claims) role = Any (λ r. r ≡ role) claims.roles

pub has_role_iff :
    (c : Option TokenClaims) (role : String) → (has_role c role ≡ true) ↔ HasRole c role
unfolding has_role
has_role_iff none role = ground arith
has_role_iff (some c) role =
    any_iff (λ r. r ≡ role) (λ r. str_eq r role) (λ r. eq_iff r role) c.roles

allowed_iff :
    (roles : List String) (c : TokenClaims) → (any (allowed roles) c.roles ≡ true) ↔ Holds roles c
allowed_iff roles c =
    any_iff (λ r. Any (λ a. a ≡ r) roles) (allowed roles)
      (λ r. any_iff (λ a. a ≡ r) (λ a. str_eq a r) (λ a. eq_iff a r) roles) c.roles

module _ {E P W : Type 0} where
  -- What a guarded call does with a request, for what the guard asks of the claims.
  abbrev pub Guarded :
      (TokenClaims → Type 0) → String → Handler E P W → Handler E P W → Request E → W → Type 0
  Guarded Pass message guarded next r w =
      ((r.claims ≡ none) × (guarded r w ≡ deny 401 "UNAUTHORIZED" "Authentication required" w))
      ⊎ ((c : TokenClaims) × (r.claims ≡ some c)
          × ((Pass c × (guarded r w ≡ next r w))
              ⊎ ((¬ Pass c) × (guarded r w ≡ deny 403 "FORBIDDEN" message w))))

  -- `RequireRole` calls the handler exactly if the claims hold one of the roles. Without claims it
  -- answers 401, and otherwise 403; then the handler does not run and the world stays as it was.
  pub require_role-Guarded :
      (roles : List String) (next : Handler E P W) (r : Request E) (w : W)
      → Guarded (Holds roles) "Insufficient permissions" (require_role roles next) next r w
  unfolding require_role
  require_role-Guarded roles next r w = elim (Option-cases r.claims) [
    | inl e ↦ inl (e, rw e)
    | inr (c, e) ↦ inr (
      c,
      e,
      elim (Bool-decides (any (allowed roles) c.roles) (allowed_iff roles c)) [
        | inl (h, t) ↦ inl (h, rw (e, t))
        | inr (h, t) ↦ inr (h, rw (e, t))
      ],
    )
  ]

module _ {E : Type 0} where
  -- The namespace is the caller's own.
  abbrev pub MayReach : String → Request E → TokenClaims → Type 0
  MayReach param r c =
      HasRole (some c) "admin"
      ⊎ (target_namespace param r ≡ "")
      ⊎ (target_namespace param r ≡ user_namespace c)

  may_reach : String → Request E → TokenClaims → Bool
  may_reach param r c =
      has_role (some c) "admin"
      || is_empty (target_namespace param r)
      || str_eq (target_namespace param r) (user_namespace c)

  may_reach_iff :
      (param : String) (r : Request E) (c : TokenClaims)
      → (may_reach param r c ≡ true) ↔ MayReach param r c
  unfolding may_reach
  may_reach_iff param r c = ground (
    arith,
    has_role_iff (some c) "admin",
    is_empty_iff (target_namespace param r),
    eq_iff (target_namespace param r) (user_namespace c),
  )

module _ {E P W : Type 0} where
  -- `RequireOwnership` calls the handler exactly for an admin, for a request that names no namespace
  -- and for one that names the caller's own. Without claims it answers 401, and otherwise 403; then
  -- the handler does not run and the world stays as it was.
  require_ownership-Guarded :
      (param : String) (next : Handler E P W) (r : Request E) (w : W)
      → Guarded
          (MayReach param r)
          "Access denied: resource belongs to another user"
          (require_ownership param next)
          next
          r
          w
  unfolding require_ownership may_reach
  require_ownership-Guarded param next r w = elim (Option-cases r.claims) [
    | inl e ↦ inl (e, rw e)
    | inr (c, e) ↦ inr (
      c,
      e,
      elim (Bool-decides (may_reach param r c) (may_reach_iff param r c)) [
        | inl (h, t) ↦ inl (h, rw e (ground arith))
        | inr (h, t) ↦ inr (h, rw e (ground arith))
      ],
    )
  ]

label_is_iff :
    (l : Option String) (user : String)
    → (label_is l user ≡ true) ↔ ((l ≡ some user) ⊎ ((l ≡ none) × (user ≡ "")))
label_is_iff none user = ground (arith, eq_iff "" user)
label_is_iff (some l) user = ground (arith, eq_iff l user)

-- A caller owns an object with labels exactly if he is an admin or the user label is his name, where
-- an object without that label has the name "".
is_owner_by_label_iff :
    (c : TokenClaims) (labels : String → Option String)
    → (is_owner_by_label (some c) (some labels) ≡ true) ↔ (
        HasRole (some c) "admin"
        ⊎ (labels "hosting.panel/user" ≡ some c.username)
        ⊎ ((labels "hosting.panel/user" ≡ none) × (c.username ≡ "")))
unfolding is_owner_by_label
is_owner_by_label_iff c labels =
    ground
      (arith, has_role_iff (some c) "admin", label_is_iff (labels "hosting.panel/user") c.username)
