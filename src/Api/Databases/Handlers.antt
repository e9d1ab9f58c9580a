-- ===== src/Api/Databases/Handlers.antt =====
-- The handlers of databases.go.
use kubecp.Api.Crd.Values.{object}
use kubecp.Common.Text.{contains, is_empty, trim_space}
use kubecp.Common.Exec.{fail_if, on_error, pure, ◌>>=◌, ◌>>◌}
use kubecp.Common.{Option, String, [], if◌then◌else◌, ltb, map, none, not, some, ℕ, ◌<>◌, ◌∷◌}
use kubecp.Api.Crd.Owned.{Effect, hosting_namespace}
use kubecp.Api.Databases.Data.{
  CreateDatabaseRequest, DatabaseView, annotated, database_response, database_view, databases_view,
  is_database_name, new_database, prefixed, with_password,
}
use kubecp.Api.Crd.Quota.{QuotaError, check_quota, out_of, refuse_quota}
use kubecp.Api.Crd.Owned.{
  Refusals, decode_body, internal, load_for, load_owned, require_claims, selector_of,
}
use kubecp.Api.Crd.Client.{
  Dynamic, Unicode, create_object, databases, delete_object, list_objects, update_object,
  update_status,
}
use kubecp.Http.{
  text, Exit, Response, TokenClaims, no_body, reply, write_bad_request, write_conflict, write_json,
}
use Prim.Native.String.{len}

abbrev bad : String → Exit DatabaseView
bad message = reply (write_bad_request message none)

abbrev pub no_database : Refusals
no_database = record {
  missing = "Database not found";
  failing = "Failed to get database: ";
  denied = "Access denied: database belongs to another user";
}

abbrev quota_text : QuotaError → String
quota_text e = "Database creation would exceed hosting plan limit (" <> out_of e <> ")"

abbrev create_error : String → String → Exit DatabaseView
create_error name e =
    if contains e "already exists"
    then reply (write_conflict "Database already exists" (some (("name", text name) ∷ [])))
    else internal "Failed to create database: " e

abbrev or_default : String → String → String
or_default s fallback = if is_empty s then fallback else s

-- The request with the prefixed name and the defaults.
unfoldable pub completed : CreateDatabaseRequest → String → CreateDatabaseRequest
completed req username = record {
  name = prefixed username (trim_space req.name);
  charset = or_default req.charset "utf8mb4";
  collation = or_default req.collation "utf8mb4_unicode_ci";
}

module _ (d : Dynamic) (u : Unicode) where
  abbrev Reply : Type 0
  Reply = Effect d DatabaseView (Response DatabaseView)

  unfoldable pub list_databases : Option TokenClaims → Reply
  list_databases c = do
    claims ← require_claims d DatabaseView c
    l ←
        on_error (internal "Failed to list databases: ")
          (list_objects d databases (some hosting_namespace) (selector_of claims))
    pure (write_json 200 (databases_view (map database_response l)))

  unfoldable pub create_database : Option TokenClaims → Option CreateDatabaseRequest → Reply
  create_database c body = do
    claims ← require_claims d DatabaseView c
    asked ← decode_body d DatabaseView body
    fail_if (is_empty (trim_space asked.name)) (bad "Database name is required")
    fail_if (not (is_database_name (trim_space asked.name))) (
        bad
          "Invalid database name: must be 1-64 characters, start with a letter or underscore, and contain only letters, digits, and underscores")
    let req = completed asked claims.username
    quota ← check_quota d DatabaseView databases "databases"
    refuse_quota d DatabaseView quota_text "database" quota
    created ←
        on_error (create_error req.name)
          (create_object d databases (some hosting_namespace) (new_database u req claims.username))
    pure (write_json 201 (database_view (database_response created)))

  unfoldable pub get_database : Option TokenClaims → String → Reply
  get_database c id = do
    o ← load_for d DatabaseView databases no_database c id
    pure (write_json 200 (database_view (database_response o)))

  unfoldable pub delete_database : Option TokenClaims → String → Reply
  delete_database c id = do
    o ← load_for d DatabaseView databases no_database c id
    on_error (internal "Failed to delete database: ")
        (delete_object d databases (some hosting_namespace) id)
    pure (record { status = 204; body = no_body })

  -- The password that a request names; its length is in bytes.
  unfoldable pub asked_password : Option String → Effect d DatabaseView String
  asked_password body = do
    asked ← decode_body d DatabaseView body
    fail_if (is_empty (trim_space asked)) (bad "Password is required")
    fail_if (ltb (len (trim_space asked)) 8) (bad "Password must be at least 8 characters")
    pure (trim_space asked)

  -- `now` is `time.Now().Unix()`.
  unfoldable pub update_database_password : Option TokenClaims → String → Option String → ℕ → Reply
  update_database_password c id body now = do
    claims ← require_claims d DatabaseView c
    password ← asked_password body
    o ← load_owned d DatabaseView databases no_database claims id
    stored ←
        on_error (internal "Failed to update database: ")
          (update_object d databases (some hosting_namespace) (annotated o password now))
    let fresh = record stored { status = object (with_password password o.status) }
    on_error (internal "Failed to update database status: ")
        (update_status d databases (some hosting_namespace) fresh)
    pure (write_json 200 (database_view (database_response fresh)))

-- The routes below /{id}, with what the request carries.
pub data DatabaseAction : Type 0 where
  reads removes : DatabaseAction
  changes_password : Option String → ℕ → DatabaseAction

unfoldable pub serve_database :
    (d : Dynamic)
    → Unicode
    → Option TokenClaims
    → String
    → DatabaseAction
    → Effect d DatabaseView (Response DatabaseView)
serve_database d u c id reads = get_database d u c id
serve_database d u c id removes = delete_database d u c id
serve_database d u c id (changes_password body now) = update_database_password d u c id body now
