-- ===== src/Api/Crd/Owned.antt =====
-- What the handlers of resources that belong to users begin with: the claims, the body, and the
-- object with the check of its owner. The lines are those of websites.go, and databases.go,
-- emails.go and email_domains.go repeat them.
pub mod Laws
use kubecp.Common.{String, ◌<>◌, Bool, not, Option, none, some, if◌then◌else◌}
use kubecp.Common.Text.{contains}
use kubecp.Common.Exec.{Exec, pure, raise, on_error, fail_if, ◌>>=◌, ◌>>◌}
use kubecp.Http.{
  Exit, reply, TokenClaims, write_bad_request, write_unauthorized, write_internal_error,
  write_not_found, write_forbidden,
}
use kubecp.Middleware.Rbac.{is_owner_by_label, has_role}
use kubecp.Api.Crd.Client.{
  Resource, LabelMap, lookup_label, Unstructured, Dynamic, Panel, get_object,
}

-- `const hostingNamespace`
abbrev pub hosting_namespace : String
hosting_namespace = "hosting-system"

abbrev pub label_lookup : Option LabelMap → Option (String → Option String)
label_lookup none = none
label_lookup (some m) = some (lookup_label m)

-- `middleware.IsOwnerByLabel(claims, obj)`
abbrev pub owns : TokenClaims → Unstructured → Bool
owns claims o = is_owner_by_label (some claims) (label_lookup o.labels)

-- The label selector of a list that a caller may see.
unfoldable pub selector_of : TokenClaims → String
selector_of claims =
    if has_role (some claims) "admin" then "" else "hosting.panel/user=" <> claims.username

-- The texts of the answers where the object is missing, cannot be read, or is another user's.
pub record Refusals : Type 0 where
  pub missing : String
  pub failing : String
  pub denied : String

unfoldable pub get_error : {P : Type 0} → Refusals → String → Exit P
get_error r e =
    if contains e "not found"
    then reply (write_not_found r.missing)
    else reply (write_internal_error (r.failing <> e))

-- `WriteInternalError(w, what+err.Error())`
abbrev pub internal : {P : Type 0} → String → String → Exit P
internal what e = reply (write_internal_error (what <> e))

module _ (d : Dynamic) (P : Type 0) where
  abbrev pub Effect : Type 0 → Type 0
  Effect A = Exec (Exit P) (Panel d.State) A

  unfoldable pub require_claims : Option TokenClaims → Effect TokenClaims
  require_claims none = raise (reply (write_unauthorized "Authentication required"))
  require_claims (some claims) = pure claims

  unfoldable pub decode_body : {A : Type 0} → Option A → Effect A
  decode_body none = raise (reply (write_bad_request "Invalid request body" none))
  decode_body (some a) = pure a

  unfoldable pub load_owned : Resource → Refusals → TokenClaims → String → Effect Unstructured
  load_owned r texts claims id = do
    o ← on_error (get_error texts) (get_object d r (some hosting_namespace) id)
    fail_if (not (owns claims o)) (reply (write_forbidden texts.denied))
    pure o

  -- The claims, and then the object.
  unfoldable pub load_for : Resource → Refusals → Option TokenClaims → String → Effect Unstructured
  load_for r texts c id = do claims ← require_claims c; load_owned r texts claims id
