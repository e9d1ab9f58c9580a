-- ===== src/Operator/Website/Allowed.antt =====
-- The writes of website_controller.go, sorted by what they concern.
use kubecp.Common.{String, ◌<>◌, ◌≡◌, Option, List, ◌∷◌, Any}
use kubecp.Common.Exec.{Result, Keeps, Keeps-lift, Keeps-on_error}
use kubecp.Operator.Data.{
  Error, Website, WebsiteDomainStatus, Deployment, HttpProxy, Object, deployment, http_proxy,
  metadata_of, label, OwnerReference,
}
use kubecp.Operator.Kube.{
  Kube, Write, status_write, create_write, update_write, dns_call, reading, create, find,
}
use kubecp.Operator.Kube.Laws.{Wrote, reading-Keeps, writing-Keeps, find-Keeps}
use kubecp.Operator.Volumes.{Environment}
use kubecp.Operator.Users.{users_of}
use kubecp.Operator.Sftp.{with_users}
use kubecp.Operator.Website.Dns.{Reconciler, lookup_request, create_request}
use kubecp.Operator.Website.Desired.{desired_deployment, synced, proxy_spec}
use kubecp.Operator.Website.Steps.{owner_reference}
use kubecp.Operator.Website.Status.{running, errored}

-- The object is in the website's namespace and carries its owner's label.
pub record Owned (site : Website) (o : Object) : Type 0 where
  pub here : (metadata_of o).namespace ≡ site.namespace
  pub theirs : label "hosting.panel/user" (metadata_of o).labels ≡ site.spec.owner

-- The host is the primary domain or an alias.
abbrev pub Hosts : Website → String → Type 0
Hosts site fqdn = Any (λ d. d ≡ fqdn) (site.spec.primary_domain ∷ site.spec.aliases)

-- The writes that belong to a website which is not suspended.
pub data Allowed (k : Kube) (env : Environment) (r : Reconciler) (site : Website)
    : Write → Type 0 where
  running_status :
      (d : Deployment) (domains : List WebsiteDomainStatus)
      → Allowed k env r site (status_write (running k site d domains))
  error_status :
      (reason : String) (e : Error) → Allowed k env r site (status_write (errored k site reason e))
  created : {o : Object} → Owned site o → Allowed k env r site (create_write o)
  redeployed :
      (old : Deployment) (owner : OwnerReference)
      → Allowed k env r site
          (update_write (deployment (synced old (desired_deployment env site owner))))
  mounted :
      (old : Deployment) (sites : List Website)
      → Allowed k env r site (update_write (deployment (with_users env (users_of sites) old)))
  routed :
      (old : HttpProxy) (fqdn : String) (tls : Option String)
      → Hosts site fqdn
      → Allowed k env r site
          (update_write (http_proxy (record old { spec = proxy_spec site fqdn tls })))
  looked_up : Allowed k env r site (dns_call (lookup_request r (site.spec.primary_domain <> ".")))
  zone_created :
      Allowed k env r site (dns_call (create_request r (site.spec.primary_domain <> ".")))

-- What holds of every allowed write is kept by the steps.
module _ (k : Kube) (env : Environment) (r : Reconciler) (site : Website) (Q : Write → Type 0)
    (sub : (x : Write) → Allowed k env r site x → Q x) where
  pub create-Keeps : (o : Object) → Owned site o → Keeps (Wrote Q) (create k o)
  create-Keeps o h = writing-Keeps k Q (create_write o) _ (sub _ (created h))

  pub owner_reference-Keeps : Keeps (Wrote Q) (owner_reference k env site)
  unfolding owner_reference
  owner_reference-Keeps = Keeps-on_error _ _ (Keeps-lift _)

  pub lookup-Keeps :
      {A : Type 0} (f : k.State → Result Error A × k.State) → Keeps (Wrote Q) (find (reading k f))
  lookup-Keeps f = find-Keeps (reading k f) (reading-Keeps k Q f)
