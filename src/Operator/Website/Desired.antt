-- ===== src/Operator/Website/Desired.antt =====
-- The objects that website_controller.go asks for.
use kubecp.Common.{
  ℕ, suc, ℤ, pos, String, ◌<>◌, str_eq, true, ◌||◌, Option, none, some, [], ◌∷◌, if◌then◌else◌,
}
use kubecp.Common.Text.{is_empty, show_nat}
use kubecp.Operator.Data.{
  Labels, Meta, OwnerReference, Website, WebsiteDomainSsl, Container, Deployment, Service,
  ProxySpec, HttpProxy, config_map,
}
use kubecp.Operator.Volumes.{Environment, user_volume_source}

-- `websiteLabels`
unfoldable pub website_labels : Website → Labels
website_labels site =
    ("app.kubernetes.io/name", "website")
    ∷ ("app.kubernetes.io/instance", site.name)
    ∷ ("app.kubernetes.io/managed-by", "hosting-operator")
    ∷ ("hosting.panel/website", site.name)
    ∷ ("hosting.panel/user", site.spec.owner)
    ∷ []

-- The metadata of an object with the website as its controller.
unfoldable pub owned_meta : Website → OwnerReference → String → Labels → Meta
owned_meta site owner name labels = record {
  name = name;
  namespace = site.namespace;
  labels = labels;
  owners = owner ∷ [];
}

abbrev php_image_tag : Environment → String → String
php_image_tag env version =
    (if is_empty env.php_image_prefix then "php" else env.php_image_prefix)
    <> ":"
    <> version
    <> "-apache"

abbrev php_version : Website → String
php_version site = if is_empty site.spec.php_version then "8.2" else site.spec.php_version

abbrev php_profile : Website → String
php_profile site =
    if is_empty site.spec.php_config_profile || str_eq site.spec.php_config_profile "default"
    then "hosting-panel-php-default-profile"
    else "hosting-panel-php-" <> site.spec.php_config_profile <> "-profile"

-- The UID of the owner, 2000 unless the spec has a positive one.
unfoldable pub owner_uid : ℤ → ℕ
owner_uid (pos (suc n)) = suc n
owner_uid _ = 2000

start_script : String → String
start_script uid =
    "set -e\n" <> "# Install PHP extensions for database access\n"
    <> "docker-php-ext-install pdo_mysql mysqli > /dev/null 2>&1\n"
    <> "# Configure Apache: listen on 8080, enable mod_rewrite, AllowOverride All\n"
    <> "sed -i 's/Listen 80/Listen 8080/' /etc/apache2/ports.conf\n"
    <> "sed -i 's/:80/:8080/g' /etc/apache2/sites-available/000-default.conf\n"
    <> "a2enmod rewrite > /dev/null\n"
    <> "cat > /etc/apache2/conf-available/hosting-panel.conf << 'APACHECONF'\n"
    <> "<Directory /var/www/html>\n" <> "    AllowOverride All\n" <> "    Require all granted\n"
    <> "</Directory>\n" <> "ServerTokens Prod\n" <> "ServerSignature Off\n" <> "APACHECONF\n"
    <> "a2enconf hosting-panel > /dev/null\n" <> "# Set Apache to run as owner UID\n"
    <> "export APACHE_RUN_USER=#" <> uid <> "\n" <> "export APACHE_RUN_GROUP=#" <> uid <> "\n"
    <> "# Fix webroot ownership\n" <> "chown -R " <> uid <> ":" <> uid
    <> " /var/www/html 2>/dev/null || true\n" <> "# Start Apache in foreground\n"
    <> "exec apache2-foreground"

-- The resources are those of the spec: without requests and limits they are the zero value, as the
-- code leaves them.
web_container : Environment → Website → Container
web_container env site =
    let uid = show_nat (owner_uid site.spec.owner_uid) in
    record {
      name = "apache-php";
      image = php_image_tag env (php_version site);
      command = "/bin/bash" ∷ "-c" ∷ [];
      args = start_script uid ∷ [];
      ports = ("http", 8080) ∷ [];
      probe = some (record { port = 8080; initial_delay = 5; period = 5; timeout = 2 });
      mounts =
          record {
            name = "webroot";
            mount_path = "/var/www/html";
            sub_path = "web/" <> site.spec.primary_domain;
          }
          ∷ record {
            name = "php-config";
            mount_path = "/usr/local/etc/php/conf.d/99-overrides.ini";
            sub_path = "php-overrides.ini";
          }
          ∷ [];
      resources = site.spec.resources;
    }

-- The replicas of the spec, or 1.
abbrev wanted_replicas : Option ℤ → ℤ
wanted_replicas none = pos 1
wanted_replicas (some n) = n

-- `desiredDeployment`, with the owner reference set
unfoldable pub desired_deployment : Environment → Website → OwnerReference → Deployment
unfolding start_script web_container
desired_deployment env site owner = record {
  metadata = owned_meta site owner site.name (website_labels site);
  replicas = some (wanted_replicas site.spec.replicas);
  selector = website_labels site;
  template = record {
    labels = website_labels site;
    annotations = [];
    fs_group = some (pos (owner_uid site.spec.owner_uid));
    init_containers = [];
    containers = web_container env site ∷ [];
    volumes =
        record { name = "webroot"; source = user_volume_source env site.spec.owner }
        ∷ record { name = "php-config"; source = config_map (php_profile site) true }
        ∷ [];
  };
  status_replicas = pos 0;
  status_ready_replicas = pos 0;
}

-- What `reconcileDeployment` sends for a deployment that is there.
unfoldable pub synced : Deployment → Deployment → Deployment
synced old desired = record old {
  replicas = desired.replicas;
  template = record old.template {
    labels = desired.template.labels;
    init_containers = desired.template.init_containers;
    containers = desired.template.containers;
    volumes = desired.template.volumes;
    fs_group = desired.template.fs_group;
  };
}

unfoldable pub desired_service : Website → OwnerReference → Service
desired_service site owner = record {
  metadata = owned_meta site owner site.name (website_labels site);
  selector = website_labels site;
  port_name = "http";
  port = 80;
  target_port = "http";
}

-- `spec.ssl`, if it is enabled.
abbrev pub enabled_ssl : Option WebsiteDomainSsl → Option WebsiteDomainSsl
enabled_ssl none = none
enabled_ssl (some ssl) = if ssl.enabled then some ssl else none

abbrev pub ssl_mode : WebsiteDomainSsl → String
ssl_mode ssl = if is_empty ssl.mode then "letsencrypt" else ssl.mode

abbrev pub tls_name : Website → String
tls_name site = site.name <> "-tls"

-- The `switch` of `desiredHTTPProxy`: the secret of its TLS configuration.
abbrev secret_of : Website → WebsiteDomainSsl → Option String
secret_of site ssl =
    if str_eq (ssl_mode ssl) "letsencrypt" || str_eq (ssl_mode ssl) "selfsigned"
    then some (tls_name site)
    else if str_eq (ssl_mode ssl) "custom"
    then (if is_empty ssl.secret_name then none else some ssl.secret_name)
    else none

abbrev pub tls_secret : Website → Option String
tls_secret site = elim (enabled_ssl site.spec.ssl) [ none ↦ none | some ssl ↦ secret_of site ssl ]

-- One route to the website's service, for a host.
abbrev pub proxy_spec : Website → String → Option String → ProxySpec
proxy_spec site fqdn tls = record {
  fqdn = fqdn;
  tls_secret = tls;
  prefix = "/";
  service = site.name;
  port = 80;
}

abbrev pub http_proxy_name : Website → String
http_proxy_name site = site.name <> "-httpproxy"

-- `desiredHTTPProxy`
unfoldable pub desired_http_proxy : Website → OwnerReference → HttpProxy
desired_http_proxy site owner = record {
  metadata = owned_meta site owner (http_proxy_name site) (website_labels site);
  spec = proxy_spec site site.spec.primary_domain (tls_secret site);
}
