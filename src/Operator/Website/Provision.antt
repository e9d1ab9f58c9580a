-- ===== src/Operator/Website/Provision.antt =====
-- The provisioning of a website: which writes it makes, and the order of its steps.
use kubecp.Common.{String, ◌≡◌, refl, ◌⊎◌, inl, inr, List, [], ◌∷◌}
use kubecp.Common.Exec.{Result, ok, err, ◌>>◌, ◌>>=◌, resume, ignore, raise, Keeps, Keeps-then}
use kubecp.Operator.Data.{Error, Website}
use kubecp.Operator.Kube.{Kube, Cluster, Write, Step, Fault, failed, panicked}
use kubecp.Operator.Kube.Laws.{Wrote}
use kubecp.Operator.Volumes.{Environment}
use kubecp.Operator.Sftp.{sync_sftp_volumes}
use kubecp.Operator.Website.Dns.{Reconciler, reconcile_dns_zone}
use kubecp.Operator.Website.Steps.{
  reconcile_pvc, reconcile_deployment, reconcile_service, reconcile_ingress, reconcile_aliases,
  reconcile_self_signed_certs,
}
use kubecp.Operator.Website.Status.{
  Outcome, Stop, crashed, Pass, set_error_status, settle, or_error_status, tolerate, non_fatal,
  update_running_status,
}
use kubecp.Operator.Website.Status.Laws.{
  or_error_status-Keeps, non_fatal-Keeps, update_running_status-Keeps,
}
use kubecp.Operator.Website.Reconcile.{provision}
use kubecp.Operator.Website.Allowed.{Allowed, running_status, error_status}
use kubecp.Operator.Website.Kept.{
  reconcile_pvc-Keeps, reconcile_deployment-Keeps, reconcile_service-Keeps, reconcile_ingress-Keeps,
  reconcile_aliases-Keeps, reconcile_self_signed_certs-Keeps, sync_sftp_volumes-Keeps,
  reconcile_dns_zone-Keeps,
}

module _ (k : Kube) (env : Environment) (r : Reconciler) (site : Website) (Q : Write → Type 0)
    (sub : (x : Write) → Allowed k env r site x → Q x) where
  step-Keeps :
      (reason : String) (m : Step k (Unit {0}))
      → Keeps (Wrote Q) m
      → Keeps (Wrote Q) (or_error_status k site reason m)
  step-Keeps reason m km =
      or_error_status-Keeps k Q site reason (λ e. sub _ (error_status reason e)) m km

  pub provision-Keeps : Keeps (Wrote Q) (provision k env r site)
  unfolding provision
  provision-Keeps = Keeps-then _ _ (step-Keeps _ _ (reconcile_pvc-Keeps k env r site Q sub)) (
      Keeps-then _ _ (non_fatal-Keeps k Q _ (sync_sftp_volumes-Keeps k env r site Q sub)) (
        Keeps-then _ _ (step-Keeps _ _ (reconcile_deployment-Keeps k env r site Q sub)) (
          Keeps-then _ _ (step-Keeps _ _ (reconcile_service-Keeps k env r site Q sub)) (
            Keeps-then _ _ (step-Keeps _ _ (reconcile_ingress-Keeps k env r site Q sub)) (
              Keeps-then _ _ (non_fatal-Keeps k Q _ (reconcile_dns_zone-Keeps k env r site Q sub)) (
                Keeps-then _ _
                  (step-Keeps _ _ (reconcile_aliases-Keeps k env r site Q sub _ (λ a h. inr h)))
                  (Keeps-then _ _
                    (step-Keeps _ _ (reconcile_self_signed_certs-Keeps k env r site Q sub))
                    (update_running_status-Keeps k Q site
                      (λ d l. sub _ (running_status d l))))))))))

-- A step of the provisioning: one that must succeed, with the reason of the error status, or one
-- whose errors are only logged.
pub data Todo (k : Kube) : Type 0 where
  must : String → Step k (Unit {0}) → Todo k
  may : Step k (Unit {0}) → Todo k

abbrev step_of : {k : Kube} → Todo k → Step k (Unit {0})
step_of (must reason m) = m
step_of (may m) = m

-- How a list of steps runs from a cluster: to the first failure, or to the status Running.
pub data Runs (k : Kube) (site : Website)
    : List (Todo k) → Cluster k.State → Result Stop Outcome × Cluster k.State → Type 0 where
  finished : (w : Cluster k.State) → Runs k site [] w (update_running_status k site w)
  passed :
      {reason : String} {m : Step k (Unit {0})} {l : List (Todo k)} {w w' : Cluster k.State}
      {o : Result Stop Outcome × Cluster k.State}
      → m w ≡ (ok tt, w')
      → Runs k site l w' o
      → Runs k site (must reason m ∷ l) w o
  gave_up :
      {reason : String} {m : Step k (Unit {0})} {l : List (Todo k)} {w w' : Cluster k.State}
      {e : Error}
      → m w ≡ (err (failed e), w')
      → Runs k site (must reason m ∷ l) w (set_error_status k site reason e w')
  broke :
      {t : Todo k} {l : List (Todo k)} {w w' : Cluster k.State}
      → step_of t w ≡ (err panicked, w')
      → Runs k site (t ∷ l) w (err crashed, w')
  went_on :
      {m : Step k (Unit {0})} {l : List (Todo k)} {w w' : Cluster k.State}
      {o : Result Stop Outcome × Cluster k.State}
      → (m w ≡ (ok tt, w')) ⊎ ((e : Error) × (m w ≡ (err (failed e), w')))
      → Runs k site l w' o
      → Runs k site (may m ∷ l) w o

-- Nothing runs behind an error status.
stopped :
    (k : Kube) (site : Website) (reason : String) (e : Error) (w : Cluster k.State)
    (rest : Pass k Outcome)
    → resume (λ _. rest) (set_error_status k {A = Unit {0}} site reason e w)
      ≡ set_error_status k site reason e w
unfolding set_error_status ◌>>◌ ◌>>=◌ ignore raise
stopped k site reason e w rest = refl

module _ (k : Kube) (site : Website) (l : List (Todo k)) (rest : Pass k Outcome)
    (next : (w : Cluster k.State) → Runs k site l w (rest w)) where
  must-result :
      (reason : String) (m : Step k (Unit {0})) (w : Cluster k.State)
      (s : Result Fault (Unit {0}) × Cluster k.State)
      → m w ≡ s
      → Runs k site (must reason m ∷ l) w (resume (λ _. rest) (settle k site reason s))
  must-result reason m w (ok tt, w') e = passed e (next w')
  must-result reason m w (err (failed x), w') e = rw (stopped k site reason x w' rest) (gave_up e)
  must-result reason m w (err panicked, w') e = broke e

  may-result :
      (m : Step k (Unit {0})) (w : Cluster k.State) (s : Result Fault (Unit {0}) × Cluster k.State)
      → m w ≡ s
      → Runs k site (may m ∷ l) w (resume (λ _. rest) (tolerate k s))
  may-result m w (ok tt, w') e = went_on (inl e) (next w')
  may-result m w (err (failed x), w') e = went_on (inr (x, e)) (next w')
  may-result m w (err panicked, w') e = broke e

  must-Runs :
      (reason : String) (m : Step k (Unit {0})) (w : Cluster k.State)
      → Runs k site (must reason m ∷ l) w ((or_error_status k site reason m >> rest) w)
  unfolding or_error_status ◌>>◌ ◌>>=◌
  must-Runs reason m w = must-result reason m w (m w) refl

  may-Runs :
      (m : Step k (Unit {0})) (w : Cluster k.State)
      → Runs k site (may m ∷ l) w ((non_fatal k m >> rest) w)
  unfolding non_fatal ◌>>◌ ◌>>=◌
  may-Runs m w = may-result m w (m w) refl

module _ (k : Kube) (env : Environment) (r : Reconciler) (site : Website) where
  -- The steps of a website, in order.
  abbrev pub todo : List (Todo k)
  todo =
      must "PVCFailed" (reconcile_pvc k env site)
      ∷ may (sync_sftp_volumes k env)
      ∷ must "DeploymentFailed" (reconcile_deployment k env site)
      ∷ must "ServiceFailed" (reconcile_service k env site)
      ∷ must "IngressFailed" (reconcile_ingress k env site)
      ∷ may (reconcile_dns_zone k r site)
      ∷ must "AliasIngressFailed" (reconcile_aliases k env site site.spec.aliases)
      ∷ must "CertFailed" (reconcile_self_signed_certs k env site)
      ∷ []

  -- Provisioning runs the steps in this order. The first step that must succeed and does not ends the
  -- pass with the error status of its reason; a DNS or SFTP error is passed over; a panic stops
  -- everything; the status Running is reached only behind the success of every step that must succeed.
  pub provision-Runs : (w : Cluster k.State) → Runs k site todo w (provision k env r site w)
  unfolding provision
  provision-Runs =
      must-Runs k site _ _
        (may-Runs k site _ _
          (must-Runs k site _ _
            (must-Runs k site _ _
              (must-Runs k site _ _
                (may-Runs k site _ _ (must-Runs k site _ _ (must-Runs k site [] _ finished _ _) _ _)
                  _)
                _ _)
              _ _)
            _ _)
          _)
        _ _
