-- ===== src/Api/Crd/Client.antt =====
-- client-go's dynamic client and clientset, the creator of DNS zones and the Keycloak client, as far
-- as the handlers of custom resources in panel-core/internal/api call them, and the record of what was
-- called. crd_client.go names the resources.
use kubecp.Common.{
  ℕ, Bool, String, str_eq, Option, none, some, List, [], ◌∷◌, ◌++◌, if◌then◌else◌, Char,
}
use kubecp.Common.Exec.{Result, Exec}
use kubecp.Api.Crd.Values.{Value, Fields, as_map}

-- `schema.GroupVersionResource`
pub record Resource : Type 0 where
  pub group : String
  pub version : String
  pub resource : String

abbrev hosting : String → Resource
hosting name = record { group = "hosting.hosting.panel"; version = "v1alpha1"; resource = name }

abbrev pub websites : Resource
websites = hosting "websites"

abbrev pub databases : Resource
databases = hosting "databases"

abbrev pub email_domains : Resource
email_domains = hosting "emaildomains"

abbrev pub email_accounts : Resource
email_accounts = hosting "emailaccounts"

abbrev pub hosting_plans : Resource
hosting_plans = hosting "hostingplans"

-- `coreV1GVR`
abbrev pub core_v1 : String → Resource
core_v1 name = record { group = ""; version = "v1"; resource = name }

-- A map of strings, `none` where it is nil.
abbrev pub LabelMap : Type 0
LabelMap = List (String × String)

unfoldable pub lookup_label : LabelMap → String → Option String
lookup_label [] key = none
lookup_label ((k, v) ∷ rest) key = if str_eq k key then some v else lookup_label rest key

unfoldable pub put_label : String → String → LabelMap → LabelMap
put_label key v [] = (key, v) ∷ []
put_label key v ((k, w) ∷ rest) =
    if str_eq k key then (k, v) ∷ rest else (k, w) ∷ put_label key v rest

-- An `unstructured.Unstructured`: what its accessors read, and the two parts that the handlers read
-- as maps. `created` is the creation time as the handlers print it.
pub record Unstructured : Type 0 where
  pub api_version : String
  pub kind : String
  pub name : String
  pub namespace : String
  pub labels : Option LabelMap
  pub annotations : Option LabelMap
  pub created : String
  pub resource_version : String
  pub spec : Value
  pub status : Value

-- `spec, _ := obj.Object["spec"].(map[string]interface{})`
abbrev pub spec_of : Unstructured → Option Fields
spec_of o = as_map o.spec

-- Of a core/v1 Namespace, what hostingplans.go and crd_client.go read and write.
pub record Namespace : Type 0 where
  pub name : String
  pub labels : Option LabelMap

-- Of `keycloak.User`, what emails.go fills in and reads; the entries of the map of attributes are in
-- the order in which they are written.
pub record User : Type 0 where
  pub id : String
  pub username : String
  pub email : String
  pub first_name : String
  pub last_name : String
  pub enabled : Bool
  pub email_verified : Bool
  pub attributes : List (String × List String)

-- An error of `keycloak.AdminClient`: the status where it is an `AdminError`, and its text.
pub record AdminError : Type 0 where
  pub status : Option ℕ
  pub text : String

-- A call of the API server, of the DNS zone creator, or of Keycloak. The scope is a namespace, `none` for a
-- resource of the cluster; a selector that is "" selects all.
pub data Call : Type 0 where
  list_call : Resource → Option String → String → Call
  get_call : Resource → Option String → String → Call
  create_call : Resource → Option String → Unstructured → Call
  update_call : Resource → Option String → Unstructured → Call
  status_call : Resource → Option String → Unstructured → Call
  delete_call : Resource → Option String → String → Call
  get_namespace_call : String → Call
  put_namespace_call : Namespace → Call
  create_zone_call : String → List String → Call
  create_user_call : User → Call
  list_users_call : String → Call
  set_password_call : String → String → Call

-- The clients and what is behind them. An error of the cluster is its text. `has_keycloak` is whether
-- the Keycloak client is there and configured.
pub record Dynamic : Type 1 where
  pub State : Type 0
  pub list : Resource → Option String → String → State → Result String (List Unstructured) × State
  pub get : Resource → Option String → String → State → Result String Unstructured × State
  pub create : Resource → Option String → Unstructured → State → Result String Unstructured × State
  pub update : Resource → Option String → Unstructured → State → Result String Unstructured × State
  pub update_status :
      Resource → Option String → Unstructured → State → Result String Unstructured × State
  pub delete : Resource → Option String → String → State → Result String (Unit {0}) × State
  pub get_namespace : String → State → Result String Namespace × State
  pub update_namespace : Namespace → State → Result String (Unit {0}) × State
  pub create_zone : String → List String → State → Result String (Unit {0}) × State
  pub has_keycloak : Bool
  pub create_user : User → State → Result AdminError String × State
  pub list_users : String → State → Result AdminError (List User) × State
  pub set_password : String → String → State → Result AdminError (Unit {0}) × State

-- What the handlers take of Go's Unicode tables beyond ASCII, and the verb %q of `fmt`.
pub record Unicode : Type 0 where
  pub lower : Char → Char
  pub fold : Char → Char
  pub quote : String → String

-- The cluster, and what was called, the first in front.
pub record Panel (State : Type 0) : Type 0 where
  pub state : State
  pub calls : List Call

module _ (d : Dynamic) where
  abbrev pub Api : Type 0 → Type 0
  Api A = Exec String (Panel d.State) A

  unfoldable pub calling :
      {E A : Type 0} → Call → (d.State → Result E A × d.State) → Exec E (Panel d.State) A
  calling x f w =
      let (answer, state') = f w.state in
      (answer, record { state = state'; calls = w.calls ++ x ∷ [] })

  abbrev pub list_objects : Resource → Option String → String → Api (List Unstructured)
  list_objects r scope selector = calling (list_call r scope selector) (d.list r scope selector)

  abbrev pub get_object : Resource → Option String → String → Api Unstructured
  get_object r scope name = calling (get_call r scope name) (d.get r scope name)

  abbrev pub create_object : Resource → Option String → Unstructured → Api Unstructured
  create_object r scope o = calling (create_call r scope o) (d.create r scope o)

  abbrev pub update_object : Resource → Option String → Unstructured → Api Unstructured
  update_object r scope o = calling (update_call r scope o) (d.update r scope o)

  abbrev pub update_status : Resource → Option String → Unstructured → Api Unstructured
  update_status r scope o = calling (status_call r scope o) (d.update_status r scope o)

  abbrev pub delete_object : Resource → Option String → String → Api (Unit {0})
  delete_object r scope name = calling (delete_call r scope name) (d.delete r scope name)

  abbrev pub get_namespace : String → Api Namespace
  get_namespace name = calling (get_namespace_call name) (d.get_namespace name)

  abbrev pub update_namespace : Namespace → Api (Unit {0})
  update_namespace n = calling (put_namespace_call n) (d.update_namespace n)

  abbrev pub create_zone : String → List String → Api (Unit {0})
  create_zone zone servers = calling (create_zone_call zone servers) (d.create_zone zone servers)

  abbrev pub create_user : User → Exec AdminError (Panel d.State) String
  create_user user = calling (create_user_call user) (d.create_user user)

  -- `ListUsers(ctx, search, 0, 1)`
  abbrev pub list_users : String → Exec AdminError (Panel d.State) (List User)
  list_users search = calling (list_users_call search) (d.list_users search)

  -- `SetPassword(ctx, id, password, false)`
  abbrev pub set_password : String → String → Exec AdminError (Panel d.State) (Unit {0})
  set_password id password = calling (set_password_call id password) (d.set_password id password)
