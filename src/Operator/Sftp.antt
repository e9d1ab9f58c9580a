-- ===== src/Operator/Sftp.antt =====
-- hosting-operator/internal/controller/sftp_volumes.go: the volumes that the SFTP deployment mounts.
pub mod Laws
use text.Mathlib.Text.{starts_with}
use kubecp.Common.{
  String, ◌<>◌, str_eq, Bool, true, false, not, Option, none, some, List, [], ◌∷◌, ◌++◌, map, keep,
  if◌then◌else◌,
}
use kubecp.Common.Exec.{Exec, pure, on_error, ◌>>=◌}
use kubecp.Operator.Data.{
  Labels, label, Volume, VolumeMount, Container, PodTemplate, Deployment, deployment, Website,
}
use kubecp.Operator.Kube.{Kube, Key, Step, reading, update, wrap, find}
use kubecp.Operator.Volumes.{Environment, user_volume_source}
use kubecp.Operator.Users.{users_of, join}

abbrev pub is_user_volume : String → Bool
is_user_volume name = starts_with name "uv-"

abbrev pub volume_of : Environment → String → Volume
volume_of env username = record {
  name = "uv-" <> username;
  source = user_volume_source env username;
}

abbrev pub mount_of : String → VolumeMount
mount_of username = record {
  name = "uv-" <> username;
  mount_path = "/home/" <> username;
  sub_path = "";
}

unfoldable pub with_volumes : Environment → List String → List Volume → List Volume
with_volumes env users volumes =
    keep (λ v. not (is_user_volume v.name)) volumes ++ map (volume_of env) users

unfoldable pub with_mounts : List String → List VolumeMount → List VolumeMount
with_mounts users mounts = keep (λ m. not (is_user_volume m.name)) mounts ++ map mount_of users

-- The loop over the containers, which stops behind the first one named "sftp".
unfoldable pub with_container : List String → List Container → List Container
with_container users [] = []
with_container users (c ∷ cs) =
    let rest = with_container users cs in
    if str_eq c.name "sftp" then record c { mounts = with_mounts users c.mounts } ∷ cs else c ∷ rest

abbrev sftp_users_key : String
sftp_users_key = "hosting.panel/sftp-users"

-- A map with one key set.
abbrev pub set_label : String → String → Labels → Labels
set_label key value labels = (key, value) ∷ keep (λ l. not (str_eq l.0 key)) labels

-- The deployment as `SyncSFTPVolumes` sends it.
unfoldable pub with_users : Environment → List String → Deployment → Deployment
with_users env users d = record d {
  template = record d.template {
    volumes = with_volumes env users d.template.volumes;
    containers = with_container users d.template.containers;
    annotations = set_label sftp_users_key (join users) d.template.annotations;
  };
}

abbrev pub sftp_key : Key
sftp_key = record { namespace = "hosting-system"; name = "hosting-panel-sftp" }

module _ (k : Kube) (env : Environment) where
  -- what follows the lookup of the deployment
  unfoldable pub sync_found : List String → Option Deployment → Step k (Unit {0})
  sync_found users none = pure tt
  sync_found users (some d) =
      if str_eq (label sftp_users_key d.template.annotations) (join users)
      then pure tt
      else on_error (wrap "update SFTP deployment volumes")
          (update k (deployment (with_users env users d)))

  -- `SyncSFTPVolumes`
  unfoldable pub sync_sftp_volumes : Step k (Unit {0})
  sync_sftp_volumes = do
    sites ← on_error (wrap "list websites") (reading k (k.list_websites "hosting-system"))
    found ← on_error (wrap "get SFTP deployment") (find (reading k (k.get_deployment sftp_key)))
    sync_found (users_of sites) found
