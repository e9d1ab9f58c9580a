-- ===== src/Api/Crd/Sample.antt =====
-- A cluster with one website, one database and one hosting plan, and two callers.
use kubecp.Api.Crd.Client.{Dynamic, Panel, Unicode, Unstructured, Resource, User}
use kubecp.Api.Crd.Values.{Fields, entry, no_fields, int64, object, Values, get, text}
use kubecp.Api.Crd.Values
use kubecp.Common.Exec.{ok, err}
use kubecp.Common.{ℕ, suc, pos, String, str_eq, none, some, List, [], ◌∷◌, if◌then◌else◌, true}
use kubecp.Http.{TokenClaims}

abbrev owned : String → String → Fields → Unstructured
owned kind name spec = record {
  api_version = "hosting.hosting.panel/v1alpha1";
  kind = kind;
  name = name;
  namespace = "hosting-system";
  labels = some (("hosting.panel/user", "alice") ∷ []);
  annotations = none;
  created = "";
  resource_version = "7";
  spec = object spec;
  status = Values.nil;
}

abbrev pub site : Unstructured
site =
    owned "Website" "blog-org" (
      entry "primaryDomain" (Values.text "blog.org")
        (entry "ownerUID" (int64 (pos 2041)) no_fields))

abbrev pub database : Unstructured
database = owned "Database" "alice-shop" (entry "name" (Values.text "alice_shop") no_fields)

abbrev plan : Unstructured
plan = owned "HostingPlan" "small" (
    entry "limits"
      (object (entry "websites" (int64 (pos 2)) (entry "databases" (int64 (pos 3)) no_fields)))
      no_fields)

abbrev listed : Resource → List Unstructured
listed r =
    if str_eq r.resource "websites"
    then site ∷ []
    else if str_eq r.resource "databases"
    then database ∷ []
    else plan ∷ []

-- A user of Keycloak with another's address.
abbrev pub victim : User
victim = record {
  id = "u-1";
  username = "root@blog.org";
  email = "root@blog.org";
  first_name = "";
  last_name = "";
  enabled = true;
  email_verified = true;
  attributes = [];
}

abbrev pub cluster : Dynamic
cluster = record {
  State = ℕ;
  list = λ r scope selector n. (ok (listed r), suc n);
  get = λ r scope name n. (ok (if str_eq r.resource "websites" then site else database), suc n);
  create = λ r scope o n. (ok o, suc n);
  update = λ r scope o n. (ok o, suc n);
  update_status = λ r scope o n. (ok o, suc n);
  delete = λ r scope name n. (ok tt, suc n);
  get_namespace = λ name n. (ok (record { name = name; labels = none }), suc n);
  update_namespace = λ x n. (ok tt, suc n);
  create_zone = λ zone servers n. (ok tt, suc n);
  has_keycloak = true;
  create_user = λ user n. (err (record { status = some 409; text = "exists" }), suc n);
  list_users = λ search n. (ok (victim ∷ []), suc n);
  set_password = λ id password n. (ok tt, suc n);
}

abbrev pub idle : Panel ℕ
idle = record { state = 0; calls = [] }

abbrev pub ascii : Unicode
ascii = record { lower = λ c. c; fold = λ c. c; quote = λ s. s }

abbrev pub alice : TokenClaims
alice = record { subject = "1"; email = "a@x"; username = "alice"; roles = "user" ∷ [] }

abbrev pub mallory : TokenClaims
mallory = record alice { username = "mallory" }
