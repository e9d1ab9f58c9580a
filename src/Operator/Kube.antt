-- ===== src/Operator/Kube.antt =====
-- The services that the operator calls: the Kubernetes API through controller-runtime's client, the
-- PowerDNS API over HTTP, certificates, and helpers of controller-runtime and apimachinery. Every
-- write and every DNS request is recorded.
pub mod Laws
pub mod Order
use kubecp.Common.{ℕ, ℤ, String, ◌<>◌, Bool, Option, none, some, List, [], ◌∷◌, ◌++◌, if◌then◌else◌}
use kubecp.Common.Exec.{Result, ok, err, Exec, convert, ◌>>=◌, pure, raise}
use kubecp.Operator.Data.{
  Error, OwnerReference, Condition, Website, Deployment, Service, VolumeClaim, HttpProxy, Secret,
  Object,
}

-- A namespace and a name.
pub record Key : Type 0 where
  pub namespace : String
  pub name : String

-- A record set as the operator sends it, always with the TTL 3600 and the change type REPLACE.
pub record DnsRecordSet : Type 0 where
  pub name : String
  pub type : String
  pub content : String

pub record NewZone : Type 0 where
  pub name : String
  pub kind : String
  pub nameservers : List String
  pub rrsets : List DnsRecordSet

-- A request to PowerDNS: a GET, or a POST with the zone as its body.
pub record DnsRequest : Type 0 where
  pub url : String
  pub api_key : String
  pub body : Option NewZone

-- What the operator fills in of `x509.Certificate`; the validity is in hours from now.
pub record CertTemplate : Type 0 where
  pub common_name : String
  pub organization : String
  pub hours_before : ℕ
  pub hours_after : ℕ
  pub dns_names : List String

-- An update answers with the object as the server has stored it. `parse_quantity` is
-- `resource.ParseQuantity` with `Value`. `issue` is the key generation, the signing and the PEM
-- encoding. `url_ok` is the URL check of `http.NewRequest`.
pub record Kube : Type 1 where
  pub State : Type 0
  pub get_website : Key → State → Result Error Website × State
  pub list_websites : String → State → Result Error (List Website) × State
  pub get_deployment : Key → State → Result Error Deployment × State
  pub get_service : Key → State → Result Error Service × State
  pub get_volume_claim : Key → State → Result Error VolumeClaim × State
  pub get_http_proxy : Key → State → Result Error HttpProxy × State
  pub get_secret : Key → State → Result Error Secret × State
  pub put_website : Website → State → Result Error Website × State
  pub put_status : Website → State → Result Error Website × State
  pub put_create : Object → State → Result Error (Unit {0}) × State
  pub put_update : Object → State → Result Error (Unit {0}) × State
  pub put_delete : Object → State → Result Error (Unit {0}) × State
  pub owner_reference : Website → Result Error OwnerReference
  pub contains_finalizer : List String → String → Bool
  pub add_finalizer : List String → String → List String
  pub remove_finalizer : List String → String → List String
  pub set_condition : List Condition → Condition → List Condition
  pub parse_quantity : String → Option ℤ
  pub issue : CertTemplate → State → Result Error (String × String) × State
  pub url_ok : String → Bool
  pub send : DnsRequest → State → Result Error ℕ × State

pub data Write : Type 0 where
  website_write : Website → Write
  status_write : Website → Write
  create_write : Object → Write
  update_write : Object → Write
  delete_write : Object → Write
  dns_call : DnsRequest → Write

-- The cluster with the services around it, and what was written, the first in front.
pub record Cluster (State : Type 0) : Type 0 where
  pub state : State
  pub writes : List Write

-- A step fails with an error, or it panics.
pub data Fault : Type 0 where
  failed : Error → Fault
  panicked : Fault

module _ (k : Kube) where
  abbrev pub Step : Type 0 → Type 0
  Step A = Exec Fault (Cluster k.State) A

  module _ {A : Type 0} where
    -- A read, of which nothing is recorded.
    unfoldable pub reading : (k.State → Result Error A × k.State) → Step A
    reading f w =
        let (answer, state') = f w.state in convert failed (answer, record w { state = state' })

    unfoldable pub writing : Write → (k.State → Result Error A × k.State) → Step A
    writing x f w =
        let (answer, state') = f w.state in
        convert failed (answer, record { state = state'; writes = w.writes ++ x ∷ [] })

  abbrev pub update_website : Website → Step Website
  update_website site = writing (website_write site) (k.put_website site)

  -- `r.Status().Update`
  abbrev pub update_status : Website → Step Website
  update_status site = writing (status_write site) (k.put_status site)

  abbrev pub create : Object → Step (Unit {0})
  create o = writing (create_write o) (k.put_create o)

  abbrev pub update : Object → Step (Unit {0})
  update o = writing (update_write o) (k.put_update o)

  abbrev pub delete : Object → Step (Unit {0})
  delete o = writing (delete_write o) (k.put_delete o)

-- `fmt.Errorf("…: %w", err)`
abbrev pub wrap : String → Fault → Fault
wrap what (failed e) = failed (record e { text = what <> ": " <> e.text })
wrap what panicked = panicked

-- A read of an object that may be missing: `none` for an error that is a not-found error.
abbrev pub found_or : {W A : Type 0} → Result Fault A × W → Result Fault (Option A) × W
found_or (ok a, w) = (ok (some a), w)
found_or (err (failed e), w) = (if e.is_not_found then ok none else err (failed e), w)
found_or (err panicked, w) = (err panicked, w)

unfoldable pub find : {W A : Type 0} → Exec Fault W A → Exec Fault W (Option A)
find m w = found_or (m w)
