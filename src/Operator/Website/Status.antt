-- ===== src/Operator/Website/Status.antt =====
-- How a pass of website_controller.go ends, and the status that it leaves.
pub mod Laws
pub mod Domains
use kubecp.Common.{
  ℕ, zero, ℤ, pos, String, str_eq, Bool, true, false, Option, none, some, List, [], ◌∷◌,
  if◌then◌else◌,
}
use kubecp.Common.Text.{is_empty}
use kubecp.Common.Exec.{Result, ok, err, Exec, pure, raise, on_error, ignore, ◌>>=◌, ◌>>◌}
use kubecp.Operator.Data.{
  Error, Condition, Website, WebsiteDomainSsl, WebsiteDomainStatus, Deployment, deployment, Secret,
}
use kubecp.Operator.Kube.{
  Kube, Cluster, Step, Fault, failed, panicked, reading, update_status, update, find,
}
use kubecp.Operator.Website.Desired.{enabled_ssl, tls_name}
use kubecp.Operator.Website.Steps.{key_of}

-- `(ctrl.Result, error)`: the delay in seconds, 0 for none, and the error.
pub record Outcome : Type 0 where
  pub requeue_after : ℕ
  pub error : Option Error

abbrev pub done : Outcome
done = record { requeue_after = 0; error = none }

-- How a pass ends early: it returns, or it panics.
pub data Stop : Type 0 where
  returned : Outcome → Stop
  crashed : Stop

-- `return ctrl.Result{}, err`
abbrev pub stop_of : Fault → Stop
stop_of (failed e) = returned (record { requeue_after = 0; error = some e })
stop_of panicked = crashed

abbrev pub is_zero : Option ℤ → Bool
is_zero (some (pos zero)) = true
is_zero _ = false

abbrev pub scaled_to_zero : Deployment → Deployment
scaled_to_zero d = record d { replicas = some (pos 0) }

module _ (k : Kube) where
  abbrev pub Pass : Type 0 → Type 0
  Pass A = Exec Stop (Cluster k.State) A

  abbrev pub available : Website → Bool → String → String → List Condition
  available site status reason message =
      k.set_condition site.status.conditions
        (record { type = "Available"; status = status; reason = reason; message = message })

  abbrev pub errored : Website → String → Error → Website
  errored site reason e = record site {
    status = record site.status {
      phase = "Error";
      conditions = available site false reason e.text;
    };
  }

  unfoldable pub set_error_status : {A : Type 0} → Website → String → Error → Pass A
  set_error_status site reason e = do
    ignore (update_status k (errored site reason e))
    raise (returned (record { requeue_after = 30; error = some e }))

  -- How `Reconcile` goes on behind a step.
  abbrev pub settle :
      Website
      → String
      → Result Fault (Unit {0}) × Cluster k.State
      → Result Stop (Unit {0}) × Cluster k.State
  settle site reason (ok a, w) = (ok a, w)
  settle site reason (err (failed e), w) = set_error_status site reason e w
  settle site reason (err panicked, w) = (err crashed, w)

  -- `if err := step(…); err != nil { return r.setErrorStatus(…) }`
  unfoldable pub or_error_status : Website → String → Step k (Unit {0}) → Pass (Unit {0})
  or_error_status site reason m w = settle site reason (m w)

  abbrev pub tolerate :
      Result Fault (Unit {0}) × Cluster k.State → Result Stop (Unit {0}) × Cluster k.State
  tolerate (err panicked, w) = (err crashed, w)
  tolerate (err (failed e), w) = (ok tt, w)
  tolerate (ok a, w) = (ok a, w)

  -- An error that is only logged.
  unfoldable pub non_fatal : Step k (Unit {0}) → Pass (Unit {0})
  non_fatal m w = tolerate (m w)

  abbrev succeeded : {A W : Type 0} → Result Fault A × W → Result Fault Bool × W
  succeeded (ok a, w) = (ok true, w)
  succeeded (err e, w) = (ok false, w)

  abbrev secret_name : Website → WebsiteDomainSsl → String
  secret_name site ssl = if is_empty ssl.secret_name then tls_name site else ssl.secret_name

  -- The certificate of a website is there, or none is asked for.
  unfoldable pub has_certificate : Website → Option WebsiteDomainSsl → Step k Bool
  has_certificate site none w = pure true w
  has_certificate site (some ssl) w =
      succeeded (reading k (k.get_secret (key_of site (secret_name site ssl))) w)

  -- The loop over the domains.
  unfoldable pub domain_statuses : Website → List String → Step k (List WebsiteDomainStatus)
  domain_statuses site [] = pure []
  domain_statuses site (domain ∷ rest) = do
    good ← has_certificate site (enabled_ssl site.spec.ssl)
    others ← domain_statuses site rest
    pure (
        record { name = domain; certificate_status = if good then "Valid" else "Pending" } ∷ others)

  abbrev pub running : Website → Deployment → List WebsiteDomainStatus → Website
  running site d domains = record site {
    status = record {
      phase = "Running";
      replicas = d.status_replicas;
      ready_replicas = d.status_ready_replicas;
      domains = domains;
      conditions = available site true "Reconciled" "All resources created successfully";
    };
  }

  abbrev later : Fault → Stop
  later e = returned (record { requeue_after = 5; error = none })

  unfoldable pub update_running_status : Website → Pass Outcome
  update_running_status site = do
    d ← on_error later (reading k (k.get_deployment (key_of site site.name)))
    domains ← on_error stop_of (domain_statuses site (site.spec.primary_domain ∷ site.spec.aliases))
    on_error stop_of (update_status k (running site d domains))
    pure done

  abbrev pub suspended : Website → Website
  suspended site = record site {
    status = record site.status {
      replicas = pos 0;
      ready_replicas = pos 0;
      conditions = available site false "Suspended" "Website is suspended";
    };
  }

  unfoldable pub scale_down : Deployment → Pass (Unit {0})
  scale_down d =
      if is_zero d.replicas
      then pure tt
      else on_error stop_of (update k (deployment (scaled_to_zero d)))

  unfoldable pub suspend : Website → Option Deployment → Pass Outcome
  suspend site none = pure done
  suspend site (some d) = do scale_down d; ignore (update_status k (suspended site)); pure done

  unfoldable pub reconcile_suspended : Website → Pass Outcome
  reconcile_suspended site = do
    found ← on_error stop_of (find (reading k (k.get_deployment (key_of site site.name))))
    suspend site found
