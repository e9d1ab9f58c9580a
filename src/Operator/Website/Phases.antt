-- ===== src/Operator/Website/Phases.antt =====
-- The phases that a pass of the reconciler writes.
use kubecp.Common.{
  String, ◌≡◌, refl, ◌⊎◌, inl, inr, Option, none, some, [], str_eq, eq_iff, Bool-decides, ◌||◌,
}
use kubecp.Common.Text.{is_empty}
use kubecp.Common.Exec.{Keeps, Keeps-bind, Keeps-pure, Keeps-on_error, Keeps-if}
use kubecp.Operator.Data.{Website}
use kubecp.Operator.Kube.{Kube, Key, Cluster, Write, status_write, delete_write}
use kubecp.Operator.Kube.Laws.{Wrote, reading-Keeps, writing-Keeps, find-Keeps}
use kubecp.Operator.Volumes.{Environment}
use kubecp.Operator.Website.Dns.{Reconciler}
use kubecp.Operator.Website.Reconcile.{
  website_finalizer, ensure_finalizer, start_provisioning, advance, reconcile_live, reconcile_found,
  reconcile,
}
use kubecp.Operator.Website.Allowed.{
  Allowed, running_status, error_status, created, redeployed, mounted, routed, looked_up,
  zone_created,
}
use kubecp.Operator.Website.Provision.{provision-Keeps}
use kubecp.Operator.Website.Lifecycle.{
  Suspends, scaled, reported, reconcile_suspended-Keeps, Releases, terminating, released,
  reconcile_delete-Keeps,
}

abbrev pub IsPhase : String → Type 0
IsPhase p =
    (p ≡ "Provisioning") ⊎ (p ≡ "Running") ⊎ (p ≡ "Error") ⊎ (p ≡ "Suspended") ⊎ (p ≡ "Terminating")

-- A status has a phase of the life cycle, and no object is deleted.
abbrev pub InLifecycle : Write → Type 0
InLifecycle (status_write site) = IsPhase site.status.phase
InLifecycle (delete_write o) = ⊥
InLifecycle _ = Unit

module _ (k : Kube) (env : Environment) (r : Reconciler) where
  allowed : (site : Website) (x : Write) → Allowed k env r site x → InLifecycle x
  allowed site _ (running_status d l) = inr (inl refl)
  allowed site _ (error_status reason e) = inr (inr (inl refl))
  allowed site _ (created h) = tt
  allowed site _ (redeployed old owner) = tt
  allowed site _ (mounted old sites) = tt
  allowed site _ (routed old fqdn tls h) = tt
  allowed site _ looked_up = tt
  allowed site _ zone_created = tt

  suspends :
      (site : Website)
      → site.status.phase ≡ "Suspended"
      → (x : Write) → Suspends k site x
      → InLifecycle x
  suspends site h _ (scaled d) = tt
  suspends site h _ reported = inr (inr (inr (inl h)))

  releases : (x : Write) → Releases k x → InLifecycle x
  releases _ (terminating site) = inr (inr (inr (inr refl)))
  releases _ (released site) = tt

  advance-Keeps : (site : Website) → Keeps (Wrote InLifecycle) (advance k env r site)
  unfolding advance
  advance-Keeps site =
      elim (Bool-decides (str_eq site.status.phase "Suspended")
        (eq_iff site.status.phase "Suspended")) [
          | inl (h, t) ↦
              rw (t, advance) (reconcile_suspended-Keeps k site InLifecycle (suspends site h))
          | inr (h, t) ↦ rw (t, advance) (provision-Keeps k env r site InLifecycle (allowed site))
        ]

  ensure_finalizer-Keeps : (site : Website) → Keeps (Wrote InLifecycle) (ensure_finalizer k site)
  unfolding ensure_finalizer
  ensure_finalizer-Keeps site =
      Keeps-if (k.contains_finalizer site.finalizers website_finalizer) (Keeps-pure site)
        (Keeps-on_error _ _ (writing-Keeps k InLifecycle _ _ tt))

  start_provisioning-Keeps :
      (site : Website) → Keeps (Wrote InLifecycle) (start_provisioning k site)
  unfolding start_provisioning
  start_provisioning-Keeps site =
      Keeps-if (is_empty site.status.phase || str_eq site.status.phase "Pending")
        (Keeps-on_error _ _ (writing-Keeps k InLifecycle _ _ (inl refl))) (Keeps-pure site)

  reconcile_live-Keeps : (site : Website) → Keeps (Wrote InLifecycle) (reconcile_live k env r site)
  unfolding reconcile_live
  reconcile_live-Keeps site =
      Keeps-bind _ _ (ensure_finalizer-Keeps site)
        (λ held. Keeps-bind _ _ (start_provisioning-Keeps held) advance-Keeps)

  reconcile_found-Keeps :
      (found : Option Website) → Keeps (Wrote InLifecycle) (reconcile_found k env r found)
  unfolding reconcile_found
  reconcile_found-Keeps none = Keeps-pure _
  reconcile_found-Keeps (some site) =
      Keeps-if site.deleting (reconcile_delete-Keeps k InLifecycle releases site)
        (reconcile_live-Keeps site)

  -- Whatever the cluster answers, a pass of the reconciler deletes nothing, and every status that it
  -- writes has the phase Provisioning, Running, Error, Suspended or Terminating.
  pub reconcile-InLifecycle :
      (key : Key) (w : Cluster k.State)
      → w.writes ≡ []
      → Wrote InLifecycle (reconcile k env r key w).1
  unfolding reconcile
  reconcile-InLifecycle key w empty =
      let pass =
        Keeps-bind _ _ (Keeps-on_error _ _ (find-Keeps _ (reading-Keeps k InLifecycle _)))
          reconcile_found-Keeps in
      pass.at w (rw empty tt)
