-- ===== src/Operator/Website/Kept.antt =====
-- On the steps of website_controller.go, one step at a time.
use kubecp.Common.{
  ℕ, String, ◌<>◌, str_eq, ◌≡◌, refl, inl, inr, ◌||◌, ◌==◌, Option, none, some, List, [], ◌∷◌, Any,
  Bool-cases, Option-cases,
}
use kubecp.Common.Text.{is_empty}
use kubecp.Common.Exec.{
  Keeps, Keeps-pure, Keeps-raise, Keeps-on_error, Keeps-bind, Keeps-then, Keeps-if,
}
use kubecp.Operator.Data.{
  label, Website, Deployment, HttpProxy, volume_claim, Service, Secret, WebsiteDomainSsl,
  VolumeClaim,
}
use kubecp.Operator.Kube.{DnsRequest, Kube, Write, dns_call}
use kubecp.Operator.Kube.Laws.{Wrote, reading-Keeps, writing-Keeps}
use kubecp.Operator.Volumes.{
  Environment, requested_gb, ensure_user_volume, create_missing, is_host_path_mode, user_volume,
}
use kubecp.Operator.Users.{users_of, join}
use kubecp.Operator.Sftp.{sync_found, sync_sftp_volumes}
use kubecp.Operator.Website.Dns.{
  Reconciler, created as zone_answer, reconcile_dns_zone, ensure_zone, create_zone, call,
  lookup_request, create_request,
}
use kubecp.Operator.Website.Desired.{
  desired_deployment, owned_meta, website_labels, desired_service, desired_http_proxy, enabled_ssl,
  ssl_mode, tls_secret,
}
use kubecp.Operator.Website.Steps.{
  reconcile_pvc, reconcile_deployment, put_deployment, reconcile_service, put_service,
  reconcile_ingress, put_http_proxy, reconcile_alias, reconcile_aliases, alias_proxy,
  reconcile_self_signed_certs, if_self_signed, ensure_secret, put_secret, tls_secret_of,
}
use kubecp.Operator.Website.Allowed.{
  Owned, Hosts, Allowed, redeployed, mounted, routed, looked_up, zone_created, create-Keeps,
  owner_reference-Keeps, lookup-Keeps,
}

module _ (k : Kube) (env : Environment) (r : Reconciler) (site : Website) (Q : Write → Type 0)
    (sub : (x : Write) → Allowed k env r site x → Q x) where
  requested_gb-Keeps : (size : String) → Keeps (Wrote Q) (requested_gb k size)
  unfolding requested_gb
  requested_gb-Keeps size = elim (Bool-cases (is_empty size)) [
    | inl e ↦ rw (e, requested_gb) (Keeps-pure 10)
    | inr e ↦ elim (Option-cases (k.parse_quantity size)) [
      | inl n ↦ rw (e, n, requested_gb) (Keeps-raise _)
      | inr (v, s) ↦ rw (e, s, requested_gb) (Keeps-pure _)
    ]
  ]

  volume_claim-Owned :
      (gb : ℕ) → Owned site (volume_claim (user_volume env site.namespace site.spec.owner gb))
  unfolding user_volume
  volume_claim-Owned gb = record { here = refl; theirs = refl }

  create_missing-Keeps :
      (gb : ℕ) (old : Option VolumeClaim)
      → Keeps (Wrote Q) (create_missing k env site.namespace site.spec.owner gb old)
  create_missing-Keeps gb (some old) = Keeps-pure tt
  create_missing-Keeps gb none =
      Keeps-on_error _ _ (create-Keeps k env r site Q sub _ (volume_claim-Owned gb))

  ensure_user_volume-Keeps :
      (gb : ℕ) → Keeps (Wrote Q) (ensure_user_volume k env site.namespace site.spec.owner gb)
  unfolding ensure_user_volume
  ensure_user_volume-Keeps gb = Keeps-if (is_host_path_mode env) (Keeps-pure tt) (
      Keeps-bind _ _ (Keeps-on_error _ _ (lookup-Keeps k env r site Q sub _))
        (create_missing-Keeps gb))

  pub reconcile_pvc-Keeps : Keeps (Wrote Q) (reconcile_pvc k env site)
  unfolding reconcile_pvc
  reconcile_pvc-Keeps = Keeps-bind _ _ (requested_gb-Keeps _) ensure_user_volume-Keeps

  put_deployment-Keeps :
      (old : Option Deployment) (owner : String)
      → Keeps (Wrote Q) (put_deployment k env old (desired_deployment env site owner))
  unfolding desired_deployment owned_meta website_labels
  put_deployment-Keeps none owner =
      create-Keeps k env r site Q sub _ (record { here = refl; theirs = refl })
  put_deployment-Keeps (some old) owner = writing-Keeps k Q _ _ (sub _ (redeployed old owner))

  pub reconcile_deployment-Keeps : Keeps (Wrote Q) (reconcile_deployment k env site)
  unfolding reconcile_deployment
  reconcile_deployment-Keeps =
      Keeps-bind _ _ (lookup-Keeps k env r site Q sub _) (λ old.
        Keeps-bind _ _ (owner_reference-Keeps k env r site Q sub) (put_deployment-Keeps old))

  put_service-Keeps : (old : Option Service) → Keeps (Wrote Q) (put_service k env site old)
  unfolding put_service desired_service owned_meta website_labels
  put_service-Keeps (some old) = Keeps-pure tt
  put_service-Keeps none =
      Keeps-bind _ _ (owner_reference-Keeps k env r site Q sub)
        (λ owner. create-Keeps k env r site Q sub _ (record { here = refl; theirs = refl }))

  pub reconcile_service-Keeps : Keeps (Wrote Q) (reconcile_service k env site)
  unfolding reconcile_service
  reconcile_service-Keeps = Keeps-bind _ _ (lookup-Keeps k env r site Q sub _) put_service-Keeps

  put_main-Keeps :
      (owner : String) (old : Option HttpProxy)
      → Keeps (Wrote Q) (put_http_proxy k env old (desired_http_proxy site owner))
  unfolding desired_http_proxy owned_meta website_labels
  put_main-Keeps owner none =
      create-Keeps k env r site Q sub _ (record { here = refl; theirs = refl })
  put_main-Keeps owner (some old) =
      writing-Keeps k Q _ _
        (sub _ (routed old site.spec.primary_domain (tls_secret site) (inl refl)))

  pub reconcile_ingress-Keeps : Keeps (Wrote Q) (reconcile_ingress k env site)
  unfolding reconcile_ingress
  reconcile_ingress-Keeps = Keeps-if (is_empty site.spec.primary_domain) (Keeps-pure tt) (
      Keeps-bind _ _ (owner_reference-Keeps k env r site Q sub)
        (λ owner. Keeps-bind _ _ (lookup-Keeps k env r site Q sub _) (put_main-Keeps owner)))

  put_alias-Keeps :
      (alias owner : String) (old : Option HttpProxy)
      → Hosts site alias
      → Keeps (Wrote Q) (put_http_proxy k env old (alias_proxy site alias owner))
  unfolding alias_proxy owned_meta website_labels
  put_alias-Keeps alias owner none h =
      create-Keeps k env r site Q sub _ (record { here = refl; theirs = refl })
  put_alias-Keeps alias owner (some old) h = writing-Keeps k Q _ _ (sub _ (routed old alias none h))

  pub reconcile_aliases-Keeps :
      (l : List String)
      → ((a : String) → Any (λ d. d ≡ a) l → Hosts site a)
      → Keeps (Wrote Q) (reconcile_aliases k env site l)
  unfolding reconcile_aliases reconcile_alias
  reconcile_aliases-Keeps [] h = Keeps-pure tt
  reconcile_aliases-Keeps (a ∷ l) h =
      Keeps-then _ _
        (Keeps-bind _ _ (owner_reference-Keeps k env r site Q sub) (λ owner.
          Keeps-bind _ _ (lookup-Keeps k env r site Q sub _)
            (λ old. put_alias-Keeps a owner old (h a (inl refl)))))
        (reconcile_aliases-Keeps l (λ b q. h b (inr q)))

  put_secret-Keeps : (old : Option Secret) → Keeps (Wrote Q) (put_secret k env site old)
  unfolding put_secret tls_secret_of owned_meta website_labels
  put_secret-Keeps (some old) = Keeps-pure tt
  put_secret-Keeps none = Keeps-bind _ _ (Keeps-on_error _ _ (reading-Keeps k Q _)) (λ pair.
      Keeps-bind _ _ (owner_reference-Keeps k env r site Q sub) (λ owner.
        Keeps-on_error _ _
          (create-Keeps k env r site Q sub _ (record { here = refl; theirs = refl }))))

  ensure_secret-Keeps : Keeps (Wrote Q) (ensure_secret k env site)
  unfolding ensure_secret
  ensure_secret-Keeps = Keeps-bind _ _ (lookup-Keeps k env r site Q sub _) put_secret-Keeps

  if_self_signed-Keeps :
      (ssl : Option WebsiteDomainSsl) → Keeps (Wrote Q) (if_self_signed k env site ssl)
  if_self_signed-Keeps none = Keeps-pure tt
  if_self_signed-Keeps (some ssl) =
      Keeps-if (str_eq (ssl_mode ssl) "selfsigned") ensure_secret-Keeps (Keeps-pure tt)

  pub reconcile_self_signed_certs-Keeps : Keeps (Wrote Q) (reconcile_self_signed_certs k env site)
  unfolding reconcile_self_signed_certs
  reconcile_self_signed_certs-Keeps = if_self_signed-Keeps (enabled_ssl site.spec.ssl)

  sync_found-Keeps :
      (sites : List Website) (old : Option Deployment)
      → Keeps (Wrote Q) (sync_found k env (users_of sites) old)
  unfolding sync_found
  sync_found-Keeps sites none = Keeps-pure tt
  sync_found-Keeps sites (some d) =
      Keeps-if
        (str_eq (label "hosting.panel/sftp-users" d.template.annotations) (join (users_of sites)))
        (Keeps-pure tt) (Keeps-on_error _ _ (writing-Keeps k Q _ _ (sub _ (mounted d sites))))

  pub sync_sftp_volumes-Keeps : Keeps (Wrote Q) (sync_sftp_volumes k env)
  unfolding sync_sftp_volumes
  sync_sftp_volumes-Keeps = Keeps-bind _ _ (Keeps-on_error _ _ (reading-Keeps k Q _)) (λ sites.
      Keeps-bind _ _ (Keeps-on_error _ _ (lookup-Keeps k env r site Q sub _))
        (sync_found-Keeps sites))

  call-Keeps : (req : DnsRequest) → Q (dns_call req) → Keeps (Wrote Q) (call k req)
  unfolding call
  call-Keeps req h = Keeps-if (k.url_ok req.url) (writing-Keeps k Q _ _ h) (Keeps-raise _)

  abbrev zone : String
  zone = site.spec.primary_domain <> "."

  zone_answer-Keeps : (status : ℕ) → Keeps (Wrote Q) (zone_answer k r status)
  zone_answer-Keeps status =
      Keeps-if (status == 201 || status == 409) (Keeps-pure tt) (Keeps-raise _)

  create_zone-Keeps : Keeps (Wrote Q) (create_zone k r zone)
  unfolding create_zone
  create_zone-Keeps =
      Keeps-bind _ _ (Keeps-on_error _ _ (call-Keeps (create_request r zone) (sub _ zone_created)))
        zone_answer-Keeps

  pub reconcile_dns_zone-Keeps : Keeps (Wrote Q) (reconcile_dns_zone k r site)
  unfolding reconcile_dns_zone ensure_zone
  reconcile_dns_zone-Keeps =
      Keeps-if
        (is_empty r.pdns_base_url || is_empty r.pdns_api_key || is_empty site.spec.primary_domain)
        (Keeps-pure tt)
        (Keeps-bind _ _ (Keeps-on_error _ _ (call-Keeps (lookup_request r zone) (sub _ looked_up)))
          (λ status. Keeps-if (status == 200) (Keeps-pure tt) create_zone-Keeps))
