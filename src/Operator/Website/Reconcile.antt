-- ===== src/Operator/Website/Reconcile.antt =====
-- `Reconcile` of website_controller.go.
use kubecp.Common.{String, str_eq, ◌||◌, Option, none, some, if◌then◌else◌}
use kubecp.Common.Text.{is_empty}
use kubecp.Common.Exec.{Result, ok, err, pure, on_error, ◌>>=◌, ◌>>◌}
use kubecp.Operator.Data.{Website}
use kubecp.Operator.Kube.{Kube, Key, reading, find, update_website, update_status}
use kubecp.Operator.Volumes.{Environment}
use kubecp.Operator.Sftp.{sync_sftp_volumes}
use kubecp.Operator.Website.Dns.{Reconciler, reconcile_dns_zone}
use kubecp.Operator.Website.Steps.{
  reconcile_pvc, reconcile_deployment, reconcile_service, reconcile_ingress, reconcile_aliases,
  reconcile_self_signed_certs,
}
use kubecp.Operator.Website.Status.{
  Outcome, done, Stop, returned, stop_of, Pass, or_error_status, non_fatal, update_running_status,
  reconcile_suspended,
}

abbrev pub website_finalizer : String
website_finalizer = "hosting.panel/website-cleanup"

abbrev pub with_phase : String → Website → Website
with_phase phase site = record site { status = record site.status { phase = phase } }

module _ (k : Kube) where
  abbrev pub without_finalizer : Website → Website
  without_finalizer site = record site {
    finalizers = k.remove_finalizer site.finalizers website_finalizer;
  }

  abbrev pub with_finalizer : Website → Website
  with_finalizer site = record site {
    finalizers = k.add_finalizer site.finalizers website_finalizer;
  }

  -- `_ = r.Status().Update(…)`: the answer replaces the object, an error leaves it as it is.
  abbrev pub kept : {E A W : Type 0} → A → Result E A × W → Result Stop A × W
  kept old (ok new, w) = (ok new, w)
  kept old (err e, w) = (ok old, w)

  unfoldable pub try_status : Website → Pass k Website
  try_status site w = kept site (update_status k site w)

  unfoldable pub reconcile_delete : Website → Pass k Outcome
  reconcile_delete site = do
    stored ← try_status (with_phase "Terminating" site)
    on_error stop_of (update_website k (without_finalizer stored))
    pure done

  unfoldable pub ensure_finalizer : Website → Pass k Website
  ensure_finalizer site =
      if k.contains_finalizer site.finalizers website_finalizer
      then pure site
      else on_error stop_of (update_website k (with_finalizer site))

  unfoldable pub start_provisioning : Website → Pass k Website
  start_provisioning site =
      if is_empty site.status.phase || str_eq site.status.phase "Pending"
      then on_error stop_of (update_status k (with_phase "Provisioning" site))
      else pure site

  module _ (env : Environment) (r : Reconciler) where
    -- the steps of a website that is not suspended
    unfoldable pub provision : Website → Pass k Outcome
    provision site = do
      or_error_status k site "PVCFailed" (reconcile_pvc k env site)
      non_fatal k (sync_sftp_volumes k env)
      or_error_status k site "DeploymentFailed" (reconcile_deployment k env site)
      or_error_status k site "ServiceFailed" (reconcile_service k env site)
      or_error_status k site "IngressFailed" (reconcile_ingress k env site)
      non_fatal k (reconcile_dns_zone k r site)
      or_error_status k site "AliasIngressFailed" (reconcile_aliases k env site site.spec.aliases)
      or_error_status k site "CertFailed" (reconcile_self_signed_certs k env site)
      update_running_status k site

    -- the state of a website decides what a pass does with it
    unfoldable pub advance : Website → Pass k Outcome
    advance site =
        if str_eq site.status.phase "Suspended" then reconcile_suspended k site else provision site

    unfoldable pub reconcile_live : Website → Pass k Outcome
    reconcile_live site = do
      held ← ensure_finalizer site
      started ← start_provisioning held
      advance started

    unfoldable pub reconcile_found : Option Website → Pass k Outcome
    reconcile_found none = pure done
    reconcile_found (some site) =
        if site.deleting then reconcile_delete site else reconcile_live site

    unfoldable pub reconcile : Key → Pass k Outcome
    reconcile key = do
      found ← on_error stop_of (find (reading k (k.get_website key)))
      reconcile_found found

-- What `Reconcile` returns, or the panic.
abbrev pub ended : Result Stop Outcome → Stop
ended (ok o) = returned o
ended (err s) = s
