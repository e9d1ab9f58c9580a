-- ===== src/Http/Serving.antt =====
-- An incoming request, the claims that the context carries, and handlers as effects.
use kubecp.Common.{String, Option, List}
use kubecp.Common.Exec.{Result, ok, err, Exec}
use kubecp.Http.Errors.{Response}

-- `TokenClaims` of panel-core/internal/middleware/auth.go
pub record TokenClaims : Type 0 where
  pub subject : String
  pub email : String
  pub username : String
  pub roles : List String

-- `E` is what the router has read of the route, its parameters and the body. A header or a query
-- parameter that is absent is "". `claims` is the value at `ClaimsContextKey`, `none` for nil.
pub record Request (E : Type 0) : Type 0 where
  pub path : String
  pub header : String → String
  pub query : String → String
  pub claims : Option TokenClaims
  pub endpoint : E

-- How a handler ends: with a response, or with a panic (a nil dereference).
pub data Exit (P : Type 0) : Type 0 where
  reply : Response P → Exit P
  panic : Exit P

abbrev pub Handler : Type 0 → Type 0 → Type 0 → Type 0
Handler E P W = Request E → W → Exit P × W

-- An early return is a failure with the response.
abbrev pub exit_of : {P : Type 0} → Result (Exit P) (Response P) → Exit P
exit_of (ok r) = reply r
exit_of (err e) = e

abbrev pub run : {P W : Type 0} → Exec (Exit P) W (Response P) → W → Exit P × W
run m w = (exit_of (m w).0, (m w).1)
