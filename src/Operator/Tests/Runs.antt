-- ===== src/Operator/Tests/Runs.antt =====
-- Passes of the reconciler at concrete clusters.
use kubecp.Operator.Tests.Sample.{running_site, key, refused}
use kubecp.Operator.Website.Reconcile.{
  try_status, reconcile_delete, ensure_finalizer, start_provisioning, reconcile_live,
}
use kubecp.Operator.Website.Status.{
  set_error_status, or_error_status, non_fatal, has_certificate, update_running_status, scale_down,
  suspend, reconcile_suspended, done, returned,
}
use kubecp.Operator.Website.Steps.{
  sanitize_domain, alias_proxy, tls_secret_of, owner_reference, reconcile_pvc, reconcile_deployment,
  put_service, reconcile_service, reconcile_ingress, reconcile_alias, reconcile_aliases, put_secret,
  ensure_secret, reconcile_self_signed_certs,
}
use kubecp.Operator.Website.Desired.{
  website_labels, owned_meta, owner_uid, desired_deployment, synced, desired_service,
  desired_http_proxy,
}
use kubecp.Operator.Website.Dns.{zone_rrsets, new_zone, call, create_zone, ensure_zone}
use kubecp.Operator.Sftp.{sync_sftp_volumes}
use kubecp.Operator.Users.{str_leb, join}
use kubecp.Operator.Volumes.{user_volume, get_user_volume, requested_gb}
use kubecp.Common.Exec.{pure, raise, lift, ◌>>=◌, ◌>>◌, on_error, ignore, fail_if}
use kubecp.Common.{String, ◌≡◌, refl, true, false, some, List, [], ◌∷◌}
use kubecp.Common.Exec.{ok, err}
use kubecp.Operator.Data.{claim}
use kubecp.Operator.Kube.{Write, status_write, reading, writing, find}
use kubecp.Operator.Volumes.{storage_gb}
use kubecp.Operator.Volumes.{ensure_user_volume, delete_user_volume, user_volume_source}
use kubecp.Operator.Users.{users_of, user_set, sort, insert}
use kubecp.Operator.Sftp.{with_users, with_volumes, with_container, with_mounts, sync_found}
use kubecp.Operator.Website.Dns.{reconcile_dns_zone}
use kubecp.Operator.Website.Status.{domain_statuses}
use kubecp.Operator.Website.Reconcile.{provision, advance, reconcile_found, reconcile}
use kubecp.Operator.Tests.Sample.{host_keys, sftp, cluster, start, claims, config}

-- Bob has no website any more: his volume goes, Alice's comes, and the host keys stay.
mounted :
    (with_users claims ("alice" ∷ []) sftp).template.volumes
    ≡ host_keys ∷ record { name = "uv-alice"; source = claim "uv-alice" } ∷ []
unfolding with_users with_volumes user_volume_source
mounted = refl

-- The phases that a run has written.
phases : List Write → List String
phases [] = []
phases (status_write site ∷ l) = site.status.phase ∷ phases l
phases (x ∷ l) = phases l

-- Every step is made, and the site runs.
running_run :
    let (r, w) = reconcile (cluster false running_site) claims config key start in
    (r ≡ ok done) × (phases w.writes ≡ "Running" ∷ [])
unfolding phases pure raise lift ◌>>=◌ ◌>>◌ on_error ignore fail_if reading writing find
    user_volume_source user_volume ensure_user_volume delete_user_volume get_user_volume storage_gb
    requested_gb user_set str_leb insert sort users_of join with_volumes with_mounts with_container
    with_users sync_found sync_sftp_volumes zone_rrsets new_zone call create_zone ensure_zone
    reconcile_dns_zone website_labels owned_meta owner_uid desired_deployment synced desired_service
    desired_http_proxy sanitize_domain alias_proxy tls_secret_of owner_reference reconcile_pvc
    reconcile_deployment put_service reconcile_service reconcile_ingress reconcile_alias
    reconcile_aliases put_secret ensure_secret reconcile_self_signed_certs set_error_status
    or_error_status non_fatal has_certificate domain_statuses update_running_status scale_down
    suspend reconcile_suspended try_status reconcile_delete ensure_finalizer start_provisioning
    provision advance reconcile_live reconcile_found reconcile
running_run = (refl, refl)

-- The first creation fails: the volume's.
failing_run :
    let (r, w) = reconcile (cluster true running_site) claims config key start in
    (r
      ≡ err (
          returned (record {
            requeue_after = 30;
            error = some (record refused {
              text = "failed to create User_Volume PVC uv-alice: quota exceeded";
            });
          })))
    × (phases w.writes ≡ "Error" ∷ [])
unfolding phases pure raise lift ◌>>=◌ ◌>>◌ on_error ignore fail_if reading writing find
    user_volume_source user_volume ensure_user_volume delete_user_volume get_user_volume storage_gb
    requested_gb user_set str_leb insert sort users_of join with_volumes with_mounts with_container
    with_users sync_found sync_sftp_volumes zone_rrsets new_zone call create_zone ensure_zone
    reconcile_dns_zone website_labels owned_meta owner_uid desired_deployment synced desired_service
    desired_http_proxy sanitize_domain alias_proxy tls_secret_of owner_reference reconcile_pvc
    reconcile_deployment put_service reconcile_service reconcile_ingress reconcile_alias
    reconcile_aliases put_secret ensure_secret reconcile_self_signed_certs set_error_status
    or_error_status non_fatal has_certificate domain_statuses update_running_status scale_down
    suspend reconcile_suspended try_status reconcile_delete ensure_finalizer start_provisioning
    provision advance reconcile_live reconcile_found reconcile
failing_run = (refl, refl)
