-- ===== src/Operator/Website/Status/Laws.antt =====
-- What the ends of a pass record, and the statuses of the domains.
use kubecp.Common.{String, true, Option, none, some, List, [], ◌∷◌}
use kubecp.Common.Exec.{
  Result, ok, err, Keeps, Keeps-pure, Keeps-raise, Keeps-on_error, Keeps-bind, Keeps-then,
  Keeps-ignore,
}
use kubecp.Operator.Data.{Error, Website, WebsiteDomainSsl, WebsiteDomainStatus, Deployment}
use kubecp.Operator.Kube.{Kube, Cluster, Write, status_write, Step, Fault, failed, panicked}
use kubecp.Operator.Kube.Laws.{Wrote, reading-Keeps, writing-Keeps}
use kubecp.Operator.Website.Desired.{enabled_ssl}
use kubecp.Operator.Website.Status.{
  errored, set_error_status, settle, or_error_status, tolerate, non_fatal, has_certificate,
  domain_statuses, running, update_running_status, succeeded,
}

module _ (k : Kube) (Q : Write → Type 0) where
  set_error_status-Keeps :
      (site : Website) (reason : String) (e : Error)
      → Q (status_write (errored k site reason e))
      → Keeps (Wrote Q) (set_error_status k {A = Unit {0}} site reason e)
  unfolding set_error_status
  set_error_status-Keeps site reason e q =
      Keeps-then _ _ (Keeps-ignore _ (writing-Keeps k Q _ _ q)) (Keeps-raise _)

  module _ (site : Website) (reason : String)
      (q : (e : Error) → Q (status_write (errored k site reason e))) where
    settled :
        (s : Result Fault (Unit {0}) × Cluster k.State)
        → Wrote Q s.1
        → Wrote Q (settle k site reason s).1
    settled (ok a, w) h = h
    settled (err (failed e), w) h = (set_error_status-Keeps site reason e (q e)).at w h
    settled (err panicked, w) h = h

    pub or_error_status-Keeps :
        (m : Step k (Unit {0}))
        → Keeps (Wrote Q) m
        → Keeps (Wrote Q) (or_error_status k site reason m)
    unfolding or_error_status
    or_error_status-Keeps m km = record { at = λ w h. settled (m w) (km.at w h) }

  tolerated :
      (s : Result Fault (Unit {0}) × Cluster k.State) → Wrote Q s.1 → Wrote Q (tolerate k s).1
  tolerated (ok a, w) h = h
  tolerated (err (failed e), w) h = h
  tolerated (err panicked, w) h = h

  pub non_fatal-Keeps :
      (m : Step k (Unit {0})) → Keeps (Wrote Q) m → Keeps (Wrote Q) (non_fatal k m)
  unfolding non_fatal
  non_fatal-Keeps m km = record { at = λ w h. tolerated (m w) (km.at w h) }

  succeeded-Keeps :
      {A : Type 0} (s : Result Fault A × Cluster k.State) → Wrote Q s.1 → Wrote Q (succeeded k s).1
  succeeded-Keeps (ok a, w) h = h
  succeeded-Keeps (err e, w) h = h

  has_certificate-Keeps :
      (site : Website) (ssl : Option WebsiteDomainSsl)
      → Keeps (Wrote Q) (has_certificate k site ssl)
  unfolding has_certificate
  has_certificate-Keeps site none = Keeps-pure true
  has_certificate-Keeps site (some ssl) = record {
    at = λ w h. succeeded-Keeps _ ((reading-Keeps k Q _).at w h);
  }

  domain_statuses-Keeps :
      (site : Website) (l : List String) → Keeps (Wrote Q) (domain_statuses k site l)
  unfolding domain_statuses
  domain_statuses-Keeps site [] = Keeps-pure []
  domain_statuses-Keeps site (d ∷ l) =
      Keeps-bind _ _ (has_certificate-Keeps site (enabled_ssl site.spec.ssl))
        (λ good. Keeps-bind _ _ (domain_statuses-Keeps site l) (λ rest. Keeps-pure _))

  pub update_running_status-Keeps :
      (site : Website)
      → ((d : Deployment) (l : List WebsiteDomainStatus) → Q (status_write (running k site d l)))
      → Keeps (Wrote Q) (update_running_status k site)
  unfolding update_running_status
  update_running_status-Keeps site q =
      Keeps-bind _ _ (Keeps-on_error _ _ (reading-Keeps k Q _)) (λ d.
        Keeps-bind _ _ (Keeps-on_error _ _ (domain_statuses-Keeps site _))
          (λ l. Keeps-then _ _ (Keeps-on_error _ _ (writing-Keeps k Q _ _ (q d l))) (Keeps-pure _)))
