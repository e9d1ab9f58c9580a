-- ===== src/Operator/Website/Dns/Laws.antt =====
-- The order of the DNS requests for a website.
use kubecp.Common.{String, ◌<>◌, ◌≡◌, ◌⊎◌, List, [], ◌∷◌, ◌++◌}
use kubecp.Common.Leads.{Leads}
use kubecp.Operator.Data.{Website}
use kubecp.Operator.Kube.{Kube, Cluster, Write, dns_call}
use kubecp.Operator.Website.Dns.{Reconciler, lookup_request, create_request}

module _ (k : Kube) (r : Reconciler) (site : Website) where
  abbrev zone : String
  zone = site.spec.primary_domain <> "."

  abbrev lookup : Write
  lookup = dns_call (lookup_request r zone)

  abbrev creation : Write
  creation = dns_call (create_request r zone)

  -- No request was made, or a lookup, or a lookup and a creation.
  abbrev pub InOrder : Cluster k.State → Type 0
  InOrder w =
      (w.writes ≡ [])
      ⊎ (w.writes ≡ dns_call (lookup_request r (site.spec.primary_domain <> ".")) ∷ [])
      ⊎ (w.writes
          ≡ dns_call (lookup_request r (site.spec.primary_domain <> "."))
            ∷ dns_call (create_request r (site.spec.primary_domain <> "."))
            ∷ [])

  -- A request is made, or the URL makes the step panic.
  abbrev Perhaps : List Write → Write → Cluster k.State → Type 0
  Perhaps l x w = (w.writes ≡ l) ⊎ (w.writes ≡ l ++ x ∷ [])
