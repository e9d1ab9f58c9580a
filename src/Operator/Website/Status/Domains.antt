-- ===== src/Operator/Website/Status/Domains.antt =====
-- The statuses of the domains in `updateRunningStatus`.
use kubecp.Common.{String, ◌≡◌, ◌⊎◌, Bool, true, false, Option, some, List, [], ◌∷◌}
use kubecp.Common.Exec.{Result, ok}
use kubecp.Operator.Data.{Website, WebsiteDomainSsl, WebsiteDomainStatus}
use kubecp.Operator.Kube.{Kube, Cluster, Fault}

-- One status for each domain, in order: Valid or Pending, and Valid where TLS is not enabled.
pub data Reports (ssl : Option WebsiteDomainSsl)
    : List String → List WebsiteDomainStatus → Type 0 where
  nothing : Reports ssl [] []
  valid :
      {d : String} {ds : List String} {l : List WebsiteDomainStatus}
      → Reports ssl ds l
      → Reports ssl (d ∷ ds) (record { name = d; certificate_status = "Valid" } ∷ l)
  pending :
      {d : String} {ds : List String} {l : List WebsiteDomainStatus} {s : WebsiteDomainSsl}
      → ssl ≡ some s
      → Reports ssl ds l
      → Reports ssl (d ∷ ds) (record { name = d; certificate_status = "Pending" } ∷ l)

module _ (k : Kube) (site : Website) where
  -- An answer for the certificate, which is no only if TLS is asked for.
  abbrev Answers : Option WebsiteDomainSsl → Result Fault Bool × Cluster k.State → Type 0
  Answers ssl s =
      (b : Bool) × (w : Cluster k.State) × (s ≡ (ok b, w))
      × ((b ≡ true) ⊎ ((b ≡ false) × ((x : WebsiteDomainSsl) × (ssl ≡ some x))))
