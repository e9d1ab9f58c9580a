-- ===== src/Api/Databases/Data.antt =====
-- The requests, responses and objects of databases.go.
use kubecp.Common.Text.{replace_char, show_nat, to_lower}
use kubecp.Common.{
  [], ◌∷◌, Bool, List, Option, String, code, false, leb, none, pos, some, true, ℕ, ℤ, ◌&&◌, ◌<>◌,
  ◌==◌, ◌||◌,
}
use kubecp.Api.Crd.Values.{
  Fields, Value, Values, as_map, as_text, entry, get, int_or_zero, no_fields, object, or_empty, put,
}
use kubecp.Api.Crd.Owned.{hosting_namespace}
use kubecp.Api.Crd.Client.{LabelMap, Unicode, Unstructured, put_label, spec_of}
use kubecp.Api.Crd.Values
use Prim.Native.String.{[], ◌∷◌, count}

pub record CreateDatabaseRequest : Type 0 where
  pub name : String
  pub charset : String
  pub collation : String

pub record DatabaseStatusInfo : Type 0 where
  pub phase : String
  pub host : String
  pub port : ℤ
  pub database_name : String
  pub username : String
  pub password : String

pub record DatabaseResponse : Type 0 where
  pub id : String
  pub name : String
  pub namespace : String
  pub db_name : String
  pub charset : String
  pub collation : String
  pub status : DatabaseStatusInfo
  pub created_at : String

pub data DatabaseView : Type 0 where
  database_view : DatabaseResponse → DatabaseView
  databases_view : List DatabaseResponse → DatabaseView

abbrev is_name_start : ℕ → Bool
is_name_start c = (leb b'a' c && leb c b'z') || (leb b'A' c && leb c b'Z') || c == b'_'

abbrev is_name_rest : ℕ → Bool
is_name_rest c = is_name_start c || (leb b'0' c && leb c b'9')

unfoldable pub all_name_rest : String → Bool
all_name_rest [] = true
all_name_rest (c ∷ s) = is_name_rest (code c) && all_name_rest s

-- `validDBNamePattern.MatchString`
unfoldable pub is_database_name : String → Bool
is_database_name [] = false
is_database_name (c ∷ s) = is_name_start (code c) && all_name_rest s && leb (count s) 63

-- The name of a user's database, and the name of its resource.
unfoldable pub prefixed : String → String → String
prefixed username name = username <> "_" <> name

unfoldable pub resource_name : Unicode → String → String
resource_name u name = replace_char b'_' "-" (to_lower u.lower name)

-- `databaseRequestToUnstructured`
unfoldable pub new_database : Unicode → CreateDatabaseRequest → String → Unstructured
new_database u req username = record {
  api_version = "hosting.hosting.panel/v1alpha1";
  kind = "Database";
  name = resource_name u req.name;
  namespace = hosting_namespace;
  labels = some (("hosting.panel/user", username) ∷ []);
  annotations = none;
  created = "";
  resource_version = "";
  spec = object (
      entry "name" (Values.text req.name) (
        entry "charset" (Values.text req.charset)
          (entry "collation" (Values.text req.collation) no_fields)));
  status = Values.nil;
}

abbrev text_at : String → Option Fields → String
text_at key none = ""
text_at key (some m) = as_text (get key m)

abbrev status_of : Option Fields → DatabaseStatusInfo
status_of m = record {
  phase = text_at "phase" m;
  host = text_at "host" m;
  port = elim m [ none ↦ pos 0 | some s ↦ int_or_zero (get "port" s) ];
  database_name = text_at "databaseName" m;
  username = text_at "username" m;
  password = text_at "password" m;
}

-- `unstructuredToDatabaseResponse`
unfoldable pub database_response : Unstructured → DatabaseResponse
database_response o = record {
  id = o.name;
  name = o.name;
  namespace = o.namespace;
  db_name = text_at "name" (spec_of o);
  charset = text_at "charset" (spec_of o);
  collation = text_at "collation" (spec_of o);
  status = status_of (as_map o.status);
  created_at = o.created;
}

abbrev pub or_no_labels : Option LabelMap → LabelMap
or_no_labels none = []
or_no_labels (some m) = m

-- `status["password"] = password`
unfoldable pub with_password : String → Value → Fields
with_password password status = put "password" (Values.text password) (or_empty (as_map status))

-- The object that is sent first: a status that is a map is changed where it stands.
unfoldable pub annotated : Unstructured → String → ℕ → Unstructured
annotated o password now = record o {
  annotations =
      some (put_label "hosting.panel/password-changed" (show_nat now) (or_no_labels o.annotations));
  status = elim (as_map o.status) [
    | none ↦ o.status
    | some m ↦ object (with_password password o.status)
  ];
}
