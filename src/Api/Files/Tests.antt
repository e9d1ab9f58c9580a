-- ===== src/Api/Files/Tests.antt =====
-- The file manager at concrete requests.
use kubecp.Api.Files.Handlers.{
  decoded, run_command, handle_list, handle_read, handle_write, handle_mkdir, handle_delete,
  handle_rename, handle_copy, handle_chmod, handle_upload, handle_download, handle_file,
}
use kubecp.Api.Files.Pods.{asking, streaming, exec_in_pod, find_pod, resolve_website_pod}
use kubecp.Middleware.Rbac.{
  require_role, require_admin, has_role, require_ownership, is_owner, is_owner_by_label,
}
use kubecp.Common.Text.{
  has_suffix, is_space, trim_space, trim_slashes, split_once, fields_count, split, to_upper,
  equal_fold, show_nat,
}
use kubecp.Common.Exec.{pure, raise, lift, ◌>>=◌, ◌>>◌, on_error, ignore, fail_if}
use kubecp.Common.{
  ℕ, suc, String, str_eq, ◌≡◌, refl, true, false, none, some, List, [], ◌∷◌, pos, map,
  if◌then◌else◌,
}
use kubecp.Common.Exec.{ok}
use kubecp.Http.{TokenClaims}
use kubecp.Operator.Volumes.{Environment}
use kubecp.Operator.Data.{Website}
use kubecp.Api.Files.Paths.{
  sanitize_path, clean, clean_parts, go_up, join_path, trim_slash, has_dots,
}
use kubecp.Api.Files.Paths.Laws.{Below, sanitize_path-Below}
use kubecp.Api.Files.Listing.{
  parse_ls_output, parse_lines, entry_of, fields, join_words, scan_int, read_digits, trim_slash_end,
}
use kubecp.Api.Files.Pods.{Pods, PodWorld, ExecRequest}
use kubecp.Api.Files.Handlers.{serve_files, delete_file}
use kubecp.Api.Files.Confined.{Confined, Ran}
use kubecp.Api.Files.Owned.{serve_files-Confined}

abbrev pods : Pods
pods = record {
  State = ℕ;
  has_rest_config = true;
  get_website = λ id n. (ok (some (λ key. some "alice")), suc n);
  list_pods = λ selector n. (ok ("pod-1" ∷ []), suc n);
  executor_error = λ req. none;
  stream = λ req n. (ok "text", suc n);
}

abbrev idle : PodWorld ℕ
idle = record { state = 0; executed = [] }

abbrev alice : TokenClaims
alice = record { subject = "1"; email = "a@x"; username = "alice"; roles = "user" ∷ [] }

abbrev mallory : TokenClaims
mallory = record alice { username = "mallory" }

abbrev query : String → String
query name = if str_eq name "websiteId" then "blog" else "/css/../../site.css"

-- A path that is missing is the directory itself, not an empty path; ".." at the front is refused,
-- and elsewhere it is resolved.
paths :
    (sanitize_path "" ≡ ".")
    × (sanitize_path "/" ≡ "")
    × (sanitize_path "../etc/passwd" ≡ "")
    × (sanitize_path "/a//b/./../c/" ≡ "a/c")
    × (sanitize_path "/../../etc" ≡ "etc")
unfolding sanitize_path clean clean_parts go_up join_path trim_slash has_dots split
paths = (refl, refl, refl, refl, refl)

abbrev commands : List ExecRequest → List (List String)
commands = map (λ r. r.command)

-- Alice deletes a file of her site, and Mallory runs nothing.
delete_run :
    (commands (serve_files pods (some alice) query delete_file idle).1.executed
      ≡ ("rm" ∷ "-rf" ∷ "/var/www/html/site.css" ∷ []) ∷ [])
    × (commands (serve_files pods (some mallory) query delete_file idle).1.executed ≡ [])
unfolding pure raise lift ◌>>=◌ ◌>>◌ on_error ignore fail_if has_suffix is_space trim_space
    trim_slashes split_once fields_count split to_upper equal_fold show_nat require_role
    require_admin has_role require_ownership is_owner is_owner_by_label asking streaming exec_in_pod
    find_pod resolve_website_pod decoded run_command handle_list handle_read handle_write
    handle_mkdir handle_delete handle_rename handle_copy handle_chmod handle_upload handle_download
    handle_file serve_files has_dots go_up clean_parts join_path clean trim_slash sanitize_path
delete_run = (refl, refl)

sanitize_path-Below_example : Below (sanitize_path "/a/../b")
sanitize_path-Below_example = sanitize_path-Below "/a/../b"

serve_files-Confined_example :
    Ran pods
      (Confined pods (some alice) (query "websiteId"))
      (serve_files pods (some alice) query delete_file idle).1
serve_files-Confined_example = serve_files-Confined pods (some alice) query delete_file idle refl

-- A listing of one file, whose name has a blank.
listing :
    parse_ls_output "total 4\n-rw-r--r-- 1 u g 12 Jan 1 10:00 a b.css\n" "css"
    ≡ record {
      name = "a b.css";
      path = "css/a b.css";
      is_dir = false;
      size = pos 12;
      permissions = "-rw-r--r--";
      mod_time = "Jan 1 10:00";
    }
      ∷ []
unfolding parse_ls_output parse_lines entry_of fields join_words scan_int read_digits trim_slash_end
    split trim_space is_space
listing = refl

abbrev env : Environment
env = record { user_volume_mode = ""; storage_class = ""; php_image_prefix = "" }

abbrev site : Website
site = record {
  name = "blog";
  namespace = "hosting-system";
  labels = [];
  finalizers = [];
  deleting = false;
  spec = record {
    primary_domain = "example.com";
    aliases = [];
    ssl = none;
    php_version = "";
    php_config_profile = "";
    owner = "alice";
    replicas = none;
    resources = record { requests = none; limits = none };
    storage_size = "";
    owner_uid = pos 0;
  };
  status = record {
    phase = "";
    replicas = pos 0;
    ready_replicas = pos 0;
    domains = [];
    conditions = [];
  };
}
