-- ===== src/Operator/Website/Steps.antt =====
-- The steps of website_controller.go that bring one kind of object to the state that a website asks
-- for.
use Prim.Native.Char.{code}
use Prim.Native.String.{[], ◌∷◌}
use kubecp.Common.{
  String, ◌<>◌, ◌*◌, str_eq, ◌==◌, Option, none, some, List, [], ◌∷◌, ◌++◌, if◌then◌else◌,
}
use kubecp.Common.Text.{is_empty}
use kubecp.Common.Exec.{pure, lift, on_error, ◌>>=◌, ◌>>◌}
use kubecp.Operator.Data.{
  Website, WebsiteDomainSsl, OwnerReference, Deployment, Service, HttpProxy, Secret, deployment,
  service, http_proxy, secret,
}
use kubecp.Operator.Kube.{
  Kube, Key, Step, failed, wrap, reading, create, update, find, CertTemplate,
}
use kubecp.Operator.Volumes.{Environment, ensure_user_volume, requested_gb}
use kubecp.Operator.Website.Desired.{
  website_labels, owned_meta, desired_deployment, synced, desired_service, desired_http_proxy,
  http_proxy_name, proxy_spec, tls_name, enabled_ssl, ssl_mode,
}

abbrev pub key_of : Website → String → Key
key_of site name = record { namespace = site.namespace; name = name }

-- `sanitizeDomainForK8s`
unfoldable pub sanitize_domain : String → String
sanitize_domain [] = []
sanitize_domain (c ∷ s) = if code c == b'.' then "-" <> sanitize_domain s else c ∷ sanitize_domain s

abbrev pub alias_name : Website → String → String
alias_name site alias = site.name <> "-alias-" <> sanitize_domain alias

unfoldable pub alias_proxy : Website → String → OwnerReference → HttpProxy
alias_proxy site alias owner = record {
  metadata = owned_meta site owner (alias_name site alias) (website_labels site);
  spec = proxy_spec site alias none;
}

-- What `generateSelfSignedCertPEM` signs.
abbrev pub cert_template : String → CertTemplate
cert_template domain = record {
  common_name = domain;
  organization = "Hosting Panel";
  hours_before = 1;
  hours_after = 365 * 24;
  dns_names = domain ∷ [];
}

unfoldable pub tls_secret_of : Website → OwnerReference → String × String → Secret
tls_secret_of site owner (crt, key) = record {
  metadata =
      owned_meta site owner (tls_name site)
        (website_labels site ++ ("hosting.panel/type", "tls-selfsigned") ∷ []);
  type = "kubernetes.io/tls";
  crt = crt;
  key = key;
}

module _ (k : Kube) (env : Environment) where
  -- `controllerutil.SetControllerReference`
  unfoldable pub owner_reference : Website → Step k OwnerReference
  owner_reference site = on_error failed (lift (k.owner_reference site))

  unfoldable pub reconcile_pvc : Website → Step k (Unit {0})
  reconcile_pvc site = do
    gb ← requested_gb k site.spec.storage_size
    ensure_user_volume k env site.namespace site.spec.owner gb

  abbrev pub put_deployment : Option Deployment → Deployment → Step k (Unit {0})
  put_deployment none desired = create k (deployment desired)
  put_deployment (some old) desired = update k (deployment (synced old desired))

  unfoldable pub reconcile_deployment : Website → Step k (Unit {0})
  reconcile_deployment site = do
    old ← find (reading k (k.get_deployment (key_of site site.name)))
    owner ← owner_reference site
    put_deployment old (desired_deployment env site owner)

  unfoldable pub put_service : Website → Option Service → Step k (Unit {0})
  put_service site (some old) = pure tt
  put_service site none = do
    owner ← owner_reference site
    create k (service (desired_service site owner))

  unfoldable pub reconcile_service : Website → Step k (Unit {0})
  reconcile_service site = do
    old ← find (reading k (k.get_service (key_of site site.name)))
    put_service site old

  abbrev pub put_http_proxy : Option HttpProxy → HttpProxy → Step k (Unit {0})
  put_http_proxy none desired = create k (http_proxy desired)
  put_http_proxy (some old) desired = update k (http_proxy (record old { spec = desired.spec }))

  unfoldable pub reconcile_ingress : Website → Step k (Unit {0})
  reconcile_ingress site = if is_empty site.spec.primary_domain then pure tt else (do
    owner ← owner_reference site
    old ← find (reading k (k.get_http_proxy (key_of site (http_proxy_name site))))
    put_http_proxy old (desired_http_proxy site owner))

  unfoldable pub reconcile_alias : Website → String → Step k (Unit {0})
  reconcile_alias site alias = do
    owner ← owner_reference site
    old ← find (reading k (k.get_http_proxy (key_of site (alias_name site alias))))
    put_http_proxy old (alias_proxy site alias owner)

  -- The loop of `reconcileAliasHTTPProxies`.
  unfoldable pub reconcile_aliases : Website → List String → Step k (Unit {0})
  reconcile_aliases site [] = pure tt
  reconcile_aliases site (alias ∷ rest) = reconcile_alias site alias >> reconcile_aliases site rest

  unfoldable pub put_secret : Website → Option Secret → Step k (Unit {0})
  put_secret site (some old) = pure tt
  put_secret site none = do
    pair ←
        on_error (wrap ("failed to generate self-signed cert for " <> site.spec.primary_domain))
          (reading k (k.issue (cert_template site.spec.primary_domain)))
    owner ← owner_reference site
    on_error (wrap ("failed to create TLS secret " <> tls_name site))
        (create k (secret (tls_secret_of site owner pair)))

  unfoldable pub ensure_secret : Website → Step k (Unit {0})
  ensure_secret site = do
    old ← find (reading k (k.get_secret (key_of site (tls_name site))))
    put_secret site old

  abbrev pub if_self_signed : Website → Option WebsiteDomainSsl → Step k (Unit {0})
  if_self_signed site none = pure tt
  if_self_signed site (some ssl) =
      if str_eq (ssl_mode ssl) "selfsigned" then ensure_secret site else pure tt

  -- `reconcileSelfSignedCerts`
  unfoldable pub reconcile_self_signed_certs : Website → Step k (Unit {0})
  reconcile_self_signed_certs site = if_self_signed site (enabled_ssl site.spec.ssl)
