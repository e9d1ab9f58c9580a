-- ===== src/Operator/Tests/Sample.antt =====
-- A cluster that holds one deployment and accepts every write, and a website.
use kubecp.Common.{
  ℕ, suc, String, str_eq, Bool, true, false, none, some, [], ◌∷◌, ◌++◌, any, keep, not, pos,
  if◌then◌else◌,
}
use kubecp.Common.Exec.{ok, err}
use kubecp.Operator.Data.{Error, Website, Volume, Container, Deployment, claim, other_source}
use kubecp.Operator.Kube.{Kube, Cluster, Key}
use kubecp.Operator.Volumes.{Environment}
use kubecp.Operator.Website.Dns.{Reconciler}

abbrev pub site_of : String → Bool → Website
site_of phase deleting = record {
  name = "blog";
  namespace = "hosting-system";
  labels = ("hosting.panel/user", "alice") ∷ [];
  finalizers = "hosting.panel/website-cleanup" ∷ [];
  deleting = deleting;
  spec = record {
    primary_domain = "example.com";
    aliases = "example.org" ∷ [];
    ssl = none;
    php_version = "";
    php_config_profile = "";
    owner = "alice";
    replicas = none;
    resources = record { requests = none; limits = none };
    storage_size = "5Gi";
    owner_uid = pos 0;
  };
  status = record {
    phase = phase;
    replicas = pos 0;
    ready_replicas = pos 0;
    domains = [];
    conditions = [];
  };
}

abbrev pub host_keys : Volume
host_keys = record { name = "ssh-host-keys"; source = other_source "secret" }

abbrev pub sftp_container : Container
sftp_container = record {
  name = "sftp";
  image = "sftp";
  command = [];
  args = [];
  ports = [];
  probe = none;
  mounts = record { name = "ssh-host-keys"; mount_path = "/etc/ssh/keys"; sub_path = "" } ∷ [];
  resources = record { requests = none; limits = none };
}

abbrev pub sftp : Deployment
sftp = record {
  metadata = record {
    name = "hosting-panel-sftp";
    namespace = "hosting-system";
    labels = [];
    owners = [];
  };
  replicas = some (pos 1);
  selector = [];
  template = record {
    labels = [];
    annotations = [];
    fs_group = none;
    init_containers = [];
    containers = sftp_container ∷ [];
    volumes = host_keys ∷ record { name = "uv-bob"; source = claim "uv-bob" } ∷ [];
  };
  status_replicas = pos 1;
  status_ready_replicas = pos 1;
}

abbrev pub missing : Error
missing = record { is_not_found = true; text = "not found" }

abbrev pub refused : Error
refused = record { is_not_found = false; text = "quota exceeded" }

-- `State` counts the calls; `failing` makes every creation fail.
abbrev pub cluster : Bool → Website → Kube
cluster failing site = record {
  State = ℕ;
  get_website = λ key n. (ok site, suc n);
  list_websites = λ namespace n. (ok (site ∷ []), suc n);
  get_deployment = λ key n. (ok sftp, suc n);
  get_service = λ key n. (err missing, suc n);
  get_volume_claim = λ key n. (err missing, suc n);
  get_http_proxy = λ key n. (err missing, suc n);
  get_secret = λ key n. (err missing, suc n);
  put_website = λ s n. (ok s, suc n);
  put_status = λ s n. (ok s, suc n);
  put_create = λ o n. (if failing then err refused else ok tt, suc n);
  put_update = λ o n. (ok tt, suc n);
  put_delete = λ o n. (ok tt, suc n);
  owner_reference = λ s. ok s.name;
  contains_finalizer = λ l f. any (λ g. str_eq g f) l;
  add_finalizer = λ l f. l ++ f ∷ [];
  remove_finalizer = λ l f. keep (λ g. not (str_eq g f)) l;
  set_condition = λ l c. c ∷ [];
  parse_quantity = λ s. some (pos 5368709120);
  issue = λ t n. (ok ("crt", "key"), suc n);
  url_ok = λ url. true;
  send = λ req n. (ok 404, suc n);
}

abbrev pub start : Cluster ℕ
start = record { state = 0; writes = [] }

abbrev pub claims : Environment
claims = record { user_volume_mode = ""; storage_class = "local-path"; php_image_prefix = "" }

abbrev pub config : Reconciler
config = record { pdns_base_url = "http://pdns"; pdns_api_key = "k"; external_ip = "10.0.0.1" }

abbrev pub running_site : Website
running_site = site_of "Running" false

abbrev pub key : Key
key = record { namespace = "hosting-system"; name = "blog" }
