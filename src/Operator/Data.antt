-- ===== src/Operator/Data.antt =====
-- The objects that the website reconciler reads and writes: hosting-operator/api/v1alpha1 and, of the
-- Kubernetes types, the fields that the operator reads or sets.
use kubecp.Common.{ℕ, ℤ, String, str_eq, Bool, Option, List, [], ◌∷◌, if◌then◌else◌}

-- A map of strings; a missing key reads as "".
abbrev pub Labels : Type 0
Labels = List (String × String)

abbrev pub label : String → Labels → String
label key [] = ""
label key ((k, v) ∷ rest) = if str_eq k key then v else label key rest

-- `errors.IsNotFound(err)`, which looks through wrapping, and `err.Error()`
pub record Error : Type 0 where
  pub is_not_found : Bool
  pub text : String

-- An owner reference, as its JSON text.
abbrev pub OwnerReference : Type 0
OwnerReference = String

pub record Meta : Type 0 where
  pub name : String
  pub namespace : String
  pub labels : Labels
  pub owners : List OwnerReference

pub record Condition : Type 0 where
  pub type : String
  pub status : Bool
  pub reason : String
  pub message : String

pub record WebsiteDomainSsl : Type 0 where
  pub enabled : Bool
  pub mode : String
  pub issuer : String
  pub secret_name : String

-- Requests and limits, `none` for a nil map; a quantity is its text.
pub record ResourceRequirements : Type 0 where
  pub requests : Option Labels
  pub limits : Option Labels

pub record WebsiteSpec : Type 0 where
  pub primary_domain : String
  pub aliases : List String
  pub ssl : Option WebsiteDomainSsl
  pub php_version : String
  pub php_config_profile : String
  pub owner : String
  pub replicas : Option ℤ
  pub resources : ResourceRequirements
  pub storage_size : String
  pub owner_uid : ℤ

pub record WebsiteDomainStatus : Type 0 where
  pub name : String
  pub certificate_status : String

pub record WebsiteStatus : Type 0 where
  pub phase : String
  pub replicas : ℤ
  pub ready_replicas : ℤ
  pub domains : List WebsiteDomainStatus
  pub conditions : List Condition

-- `deleting`: the deletion timestamp is set.
pub record Website : Type 0 where
  pub name : String
  pub namespace : String
  pub labels : Labels
  pub finalizers : List String
  pub deleting : Bool
  pub spec : WebsiteSpec
  pub status : WebsiteStatus

pub data VolumeSource : Type 0 where
  host_path : String → VolumeSource
  claim : String → VolumeSource
  config_map : String → Bool → VolumeSource
  other_source : String → VolumeSource

pub record Volume : Type 0 where
  pub name : String
  pub source : VolumeSource

pub record VolumeMount : Type 0 where
  pub name : String
  pub mount_path : String
  pub sub_path : String

-- Of the readiness probe, the TCP port and the three delays in seconds.
pub record Probe : Type 0 where
  pub port : ℕ
  pub initial_delay : ℕ
  pub period : ℕ
  pub timeout : ℕ

pub record Container : Type 0 where
  pub name : String
  pub image : String
  pub command : List String
  pub args : List String
  pub ports : List (String × ℕ)
  pub probe : Option Probe
  pub mounts : List VolumeMount
  pub resources : ResourceRequirements

pub record PodTemplate : Type 0 where
  pub labels : Labels
  pub annotations : Labels
  pub fs_group : Option ℤ
  pub init_containers : List Container
  pub containers : List Container
  pub volumes : List Volume

pub record Deployment : Type 0 where
  pub metadata : Meta
  pub replicas : Option ℤ
  pub selector : Labels
  pub template : PodTemplate
  pub status_replicas : ℤ
  pub status_ready_replicas : ℤ

pub record Service : Type 0 where
  pub metadata : Meta
  pub selector : Labels
  pub port_name : String
  pub port : ℕ
  pub target_port : String

pub record VolumeClaim : Type 0 where
  pub metadata : Meta
  pub access_mode : String
  pub storage_class : String
  pub storage : String

-- The spec of a Contour HTTPProxy: a host, perhaps a TLS secret, and one route.
pub record ProxySpec : Type 0 where
  pub fqdn : String
  pub tls_secret : Option String
  pub prefix : String
  pub service : String
  pub port : ℕ

pub record HttpProxy : Type 0 where
  pub metadata : Meta
  pub spec : ProxySpec

pub record Secret : Type 0 where
  pub metadata : Meta
  pub type : String
  pub crt : String
  pub key : String

pub data Object : Type 0 where
  deployment : Deployment → Object
  service : Service → Object
  volume_claim : VolumeClaim → Object
  http_proxy : HttpProxy → Object
  secret : Secret → Object

abbrev pub metadata_of : Object → Meta
metadata_of (deployment d) = d.metadata
metadata_of (service s) = s.metadata
metadata_of (volume_claim v) = v.metadata
metadata_of (http_proxy p) = p.metadata
metadata_of (secret s) = s.metadata
