-- ===== src/Operator/Website/Lifecycle.antt =====
-- The life cycle of a website: the phases that a pass writes, suspension and deletion.
use kubecp.Common.{Option, none, some}
use kubecp.Common.Exec.{
  Result, ok, err, Keeps, Keeps-then, Keeps-bind, Keeps-pure, Keeps-on_error, Keeps-ignore,
  Keeps-if,
}
use kubecp.Operator.Data.{Website, Deployment, deployment}
use kubecp.Operator.Kube.{Kube, Cluster, Write, website_write, status_write, update_write}
use kubecp.Operator.Kube.Laws.{Wrote, reading-Keeps, writing-Keeps, find-Keeps}
use kubecp.Operator.Website.Status.{
  scaled_to_zero, suspended, scale_down, is_zero, suspend, reconcile_suspended,
}
use kubecp.Operator.Website.Reconcile.{
  with_phase, without_finalizer, kept, try_status, reconcile_delete,
}

-- The writes for a suspended website: its deployment at zero replicas, and its status.
pub data Suspends (k : Kube) (site : Website) : Write → Type 0 where
  scaled : (d : Deployment) → Suspends k site (update_write (deployment (scaled_to_zero d)))
  reported : Suspends k site (status_write (suspended k site))

module _ (k : Kube) (site : Website) (Q : Write → Type 0)
    (sub : (x : Write) → Suspends k site x → Q x) where
  suspend-Keeps : (found : Option Deployment) → Keeps (Wrote Q) (suspend k site found)
  unfolding suspend scale_down
  suspend-Keeps none = Keeps-pure _
  suspend-Keeps (some d) =
      Keeps-then _ _
        (Keeps-if (is_zero d.replicas) (Keeps-pure tt)
          (Keeps-on_error _ _ (writing-Keeps k Q _ _ (sub _ (scaled d)))))
        (Keeps-then _ _ (Keeps-ignore _ (writing-Keeps k Q _ _ (sub _ reported))) (Keeps-pure _))

  pub reconcile_suspended-Keeps : Keeps (Wrote Q) (reconcile_suspended k site)
  unfolding reconcile_suspended
  reconcile_suspended-Keeps =
      Keeps-bind _ _ (Keeps-on_error _ _ (find-Keeps _ (reading-Keeps k Q _))) suspend-Keeps

-- The writes for a website that is being deleted: its phase, and the finalizer that is taken off.
pub data Releases (k : Kube) : Write → Type 0 where
  terminating : (site : Website) → Releases k (status_write (with_phase "Terminating" site))
  released : (site : Website) → Releases k (website_write (without_finalizer k site))

module _ (k : Kube) (Q : Write → Type 0) where
  kept-Keeps :
      {E A : Type 0} (old : A) (s : Result E A × Cluster k.State)
      → Wrote Q s.1
      → Wrote Q (kept k old s).1
  kept-Keeps old (ok new, w) h = h
  kept-Keeps old (err e, w) h = h

  pub reconcile_delete-Keeps :
      (sub : (x : Write) → Releases k x → Q x) (site : Website)
      → Keeps (Wrote Q) (reconcile_delete k site)
  unfolding reconcile_delete try_status
  reconcile_delete-Keeps sub site =
      Keeps-bind _ _
        (record {
          at = λ w h. kept-Keeps _ _ ((writing-Keeps k Q _ _ (sub _ (terminating site))).at w h);
        })
        (λ stored.
          Keeps-then _ _ (Keeps-on_error _ _ (writing-Keeps k Q _ _ (sub _ (released stored))))
            (Keeps-pure _))
