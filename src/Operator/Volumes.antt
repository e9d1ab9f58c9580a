-- ===== src/Operator/Volumes.antt =====
-- hosting-operator/internal/controller/uservolume.go: the volume of a user, and the size that
-- `reconcilePVC` asks for.
pub mod Laws
pub mod Once
use kubecp.Common.{
  ℕ, zero, suc, ◌/◌, ◌%◌, ◌-◌, ◌*◌, ltb, leb, ◌&&◌, ℤ, pos, negsuc, String, ◌<>◌, str_eq, Bool,
  Option, none, some, List, [], ◌∷◌, if◌then◌else◌,
}
use kubecp.Common.Text.{is_empty, show_nat}
use kubecp.Common.Exec.{Exec, pure, raise, on_error, ◌>>=◌}
use kubecp.Operator.Data.{Meta, VolumeSource, host_path, claim, VolumeClaim, volume_claim}
use kubecp.Operator.Kube.{Kube, Key, Step, Fault, panicked, reading, create, delete, wrap, find}

-- The environment variables that the operator reads.
pub record Environment : Type 0 where
  pub user_volume_mode : String
  pub storage_class : String
  pub php_image_prefix : String

-- `IsHostPathMode`
abbrev pub is_host_path_mode : Environment → Bool
is_host_path_mode env = str_eq env.user_volume_mode "hostpath"

-- `UserVolumeHostPath`
abbrev pub user_volume_host_path : String → String
user_volume_host_path username = "/data/kubecp/uv-" <> username

-- `UserVolumePVCName`
abbrev pub user_volume_claim_name : String → String
user_volume_claim_name username = "uv-" <> username

-- `userVolumeSource` of website_controller.go
unfoldable pub user_volume_source : Environment → String → VolumeSource
user_volume_source env username =
    if is_host_path_mode env
    then host_path (user_volume_host_path username)
    else claim (user_volume_claim_name username)

abbrev pub effective_class : Environment → String
effective_class env = if is_empty env.storage_class then "longhorn" else env.storage_class

-- The claim that `EnsureUserVolume` creates.
unfoldable pub user_volume : Environment → String → String → ℕ → VolumeClaim
user_volume env namespace username storage_gb = record {
  metadata = record {
    name = user_volume_claim_name username;
    namespace = namespace;
    labels = ("hosting.panel/user-volume", "true") ∷ ("hosting.panel/user", username) ∷ [];
    owners = [];
  };
  access_mode =
      if str_eq (effective_class env) "local-path" then "ReadWriteOnce" else "ReadWriteMany";
  storage_class = effective_class env;
  storage = show_nat storage_gb <> "Gi";
}

abbrev pub claim_key : String → String → Key
claim_key namespace username = record {
  namespace = namespace;
  name = user_volume_claim_name username;
}

module _ (k : Kube) (env : Environment) where
  -- what follows the lookup of the claim
  abbrev pub create_missing : String → String → ℕ → Option VolumeClaim → Step k (Unit {0})
  create_missing namespace username gb (some old) = pure tt
  create_missing namespace username gb none =
      on_error (wrap ("failed to create User_Volume PVC " <> user_volume_claim_name username))
        (create k (volume_claim (user_volume env namespace username gb)))

  -- `EnsureUserVolume`
  unfoldable pub ensure_user_volume : String → String → ℕ → Step k (Unit {0})
  ensure_user_volume namespace username gb =
      if is_host_path_mode env
      then pure tt
      else (on_error (wrap ("failed to check User_Volume PVC " <> user_volume_claim_name username))
            (find (reading k (k.get_volume_claim (claim_key namespace username))))
          >>= create_missing namespace username gb)

  abbrev pub delete_found : String → Option VolumeClaim → Step k (Unit {0})
  delete_found username none = pure tt
  delete_found username (some old) =
      on_error (wrap ("failed to delete User_Volume PVC " <> user_volume_claim_name username))
        (delete k (volume_claim old))

  -- `DeleteUserVolume`
  unfoldable pub delete_user_volume : String → String → Step k (Unit {0})
  delete_user_volume namespace username =
      if is_host_path_mode env
      then pure tt
      else (on_error (wrap ("failed to get User_Volume PVC " <> user_volume_claim_name username))
            (find (reading k (k.get_volume_claim (claim_key namespace username))))
          >>= delete_found username)

-- `GetUserVolumePVC`
unfoldable pub get_user_volume : (k : Kube) → String → String → Step k VolumeClaim
get_user_volume k namespace username = reading k (k.get_volume_claim (claim_key namespace username))

-- The residue of `value / (1024 * 1024 * 1024)` modulo 2^32; Go's division truncates towards zero.
abbrev gib_residue : ℤ → ℕ
gib_residue (pos n) = n / 1073741824 % 4294967296
gib_residue (negsuc n) = (4294967296 - suc n / 1073741824 % 4294967296) % 4294967296

-- `int32(…)`, and `if storageGB < 1 { storageGB = 1 }`: a residue from 2^31 on is a negative int32.
unfoldable pub storage_gb : ℤ → ℕ
storage_gb value = let r = gib_residue value in if leb 1 r && ltb r 2147483648 then r else 1

-- The size in `reconcilePVC`; a text that does not parse makes `MustParse` panic.
unfoldable pub requested_gb : (k : Kube) → String → Step k ℕ
requested_gb k size =
    if is_empty size
    then pure 10
    else elim (k.parse_quantity size) [ none ↦ raise panicked | some v ↦ pure (storage_gb v) ]
