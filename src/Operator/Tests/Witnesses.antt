-- ===== src/Operator/Tests/Witnesses.antt =====
-- The theorems on the operator at concrete clusters.
use kubecp.Operator.Tests.Sample.{running_site, key}
use kubecp.Common.{◌≡◌, refl, true, false, some, [], ◌∷◌}
use kubecp.Common.Exec.{ok}
use kubecp.Operator.Kube.Laws.{Wrote}
use kubecp.Operator.Volumes.Once.{CreatedOnce, ensure_user_volume-Once}
use kubecp.Operator.Volumes.{ensure_user_volume}
use kubecp.Operator.Sftp.{with_users, sync_found}
use kubecp.Operator.Sftp.Laws.{sync_found_settles}
use kubecp.Operator.Website.Reconcile.{provision, reconcile}
use kubecp.Operator.Website.Allowed.{Allowed}
use kubecp.Operator.Website.Provision.{Runs, todo, provision-Runs}
use kubecp.Operator.Website.Phases.{InLifecycle, reconcile-InLifecycle}
use kubecp.Operator.Tests.Sample.{sftp, cluster, start, claims, config}

provision-Runs_example :
    Runs
      (cluster true running_site)
      running_site
      (todo (cluster true running_site) claims config running_site)
      start
      (provision (cluster true running_site) claims config running_site start)
provision-Runs_example = provision-Runs (cluster true running_site) claims config running_site start

reconcile-InLifecycle_example :
    Wrote InLifecycle (reconcile (cluster false running_site) claims config key start).1
reconcile-InLifecycle_example =
    reconcile-InLifecycle (cluster false running_site) claims config key start refl

ensure_user_volume-Once_example :
    CreatedOnce
      (cluster false running_site)
      claims
      "hosting-system"
      "alice"
      5
      (ensure_user_volume (cluster false running_site) claims "hosting-system" "alice" 5 start).1
ensure_user_volume-Once_example =
    ensure_user_volume-Once (cluster false running_site) claims "hosting-system" "alice" 5 start
      refl

sync_found_settles_example :
    sync_found
      (cluster false running_site)
      claims
      ("alice" ∷ [])
      (some (with_users claims ("alice" ∷ []) sftp))
      start
    ≡ (ok tt, start)
sync_found_settles_example =
    sync_found_settles (cluster false running_site) claims ("alice" ∷ []) sftp start
