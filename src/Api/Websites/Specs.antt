-- ===== src/Api/Websites/Specs.antt =====
-- The objects that the handlers of websites.go write.
use kubecp.Common.{
  ℤ, pos, lt_int, String, str_eq, Bool, true, false, not, ◌||◌, Option, none, some, List, [], ◌∷◌,
  any, if◌then◌else◌, keep, ◌++◌,
}
use kubecp.Common.Text.{is_empty, trim_space}
use kubecp.Api.Crd.Values.{
  Value, int64, bool, slice, object, Fields, no_fields, entry, put, get, as_map, or_empty, of_texts,
  Values,
}
use kubecp.Api.Crd.Values
use kubecp.Api.Crd.Client.{Unstructured, spec_of}
use kubecp.Api.Crd.Owned.{hosting_namespace}
use kubecp.Api.Websites.Data.{
  WebsiteDomainSsl, WebsiteResources, CreateWebsiteRequest, UpdateWebsiteRequest,
}
use kubecp.Api.Websites.Objects.{
  sanitize_domain, ssl_to_unstructured, has_entries, resources_to_unstructured, extract_aliases,
}

abbrev pub valid_php_versions : List String
valid_php_versions = "7.4" ∷ "8.0" ∷ "8.1" ∷ "8.2" ∷ "8.3" ∷ "8.4" ∷ "8.5" ∷ []

-- `validPHPVersions[version]`
unfoldable pub is_php_version : String → Bool
is_php_version version = any (λ v. str_eq v version) valid_php_versions

abbrev pub or_default : String → String → String
or_default s fallback = if is_empty s then fallback else s

-- `map[string]interface{}{"version": version}`
abbrev pub php_map : String → Value
php_map version = object (entry "version" (Values.text version) no_fields)

-- The defaults that `CreateWebsite` fills in.
unfoldable pub completed : CreateWebsiteRequest → CreateWebsiteRequest
completed req = record req {
  primary_domain = trim_space req.primary_domain;
  php = or_default req.php "8.2";
  php_config_profile = or_default req.php_config_profile "default";
  replicas = elim req.replicas [ none ↦ some (pos 1) | some n ↦ some n ];
  storage_size = or_default req.storage_size "5Gi";
}

abbrev pub put_if : Bool → String → Value → Fields → Fields
put_if b key v m = if b then put key v m else m

abbrev pub has_texts : List String → Bool
has_texts [] = false
has_texts (s ∷ l) = true

abbrev pub put_ssl : Option WebsiteDomainSsl → Fields → Fields
put_ssl none m = m
put_ssl (some ssl) m = put "ssl" (object (ssl_to_unstructured ssl)) m

abbrev pub replicas_of : Option ℤ → ℤ
replicas_of none = pos 1
replicas_of (some n) = n

-- The entries that every new website has.
abbrev pub base_spec : CreateWebsiteRequest → String → Fields
base_spec req username = entry "primaryDomain" (Values.text req.primary_domain) (
    entry "owner" (Values.text username) (
      entry "php" (php_map req.php) (
        entry "phpConfigProfile" (Values.text req.php_config_profile) (
          entry "replicas" (int64 (replicas_of req.replicas))
            (entry "storageSize" (Values.text req.storage_size) no_fields)))))

-- The spec of a new website.
unfoldable pub new_spec : CreateWebsiteRequest → String → ℤ → Fields
new_spec req username uid = put_if (lt_int (pos 0) uid) "ownerUID" (int64 uid) (
    put_if (has_entries req.resources.requests || has_entries req.resources.limits) "resources"
      (object (resources_to_unstructured req.resources))
      (put_ssl req.ssl (
        put_if (has_texts req.aliases) "aliases" (slice (of_texts req.aliases))
          (base_spec req username))))

-- An object of the hosting group that belongs to a user.
abbrev pub user_object : String → String → String → Fields → Unstructured
user_object kind name username spec = record {
  api_version = "hosting.hosting.panel/v1alpha1";
  kind = kind;
  name = name;
  namespace = hosting_namespace;
  labels = some (("hosting.panel/user", username) ∷ []);
  annotations = none;
  created = "";
  resource_version = "";
  spec = object spec;
  status = Values.nil;
}

unfoldable pub new_website : CreateWebsiteRequest → String → ℤ → Unstructured
new_website req username uid =
    user_object "Website" (sanitize_domain req.primary_domain) username (new_spec req username uid)

unfoldable pub new_email_domain : String → String → Unstructured
new_email_domain domain username = user_object "EmailDomain" (sanitize_domain domain) username (
    entry "domain" (Values.text domain)
      (entry "owner" (Values.text username) (entry "spamFilter" (bool true) no_fields)))

-- What an update puts into the spec, the PHP version aside.
abbrev pub put_text : String → String → Fields → Fields
put_text key s m = if is_empty s then m else put key (Values.text s) m

abbrev pub put_replicas : Option ℤ → Fields → Fields
put_replicas none m = m
put_replicas (some n) m = put "replicas" (int64 n) m

abbrev pub put_aliases : Option (List String) → Fields → Fields
put_aliases none m = m
put_aliases (some l) m = put "aliases" (slice (of_texts l)) m

abbrev pub put_resources : Option WebsiteResources → Fields → Fields
put_resources none m = m
put_resources (some r) m = put "resources" (object (resources_to_unstructured r)) m

abbrev pub put_php : Option String → Fields → Fields
put_php none m = m
put_php (some version) m = put "php" (php_map version) m

unfoldable pub updated_spec : UpdateWebsiteRequest → Fields → Fields
updated_spec req m = put_text "storageSize" req.storage_size (
    put_resources req.resources (
      put_ssl req.ssl (
        put_aliases req.aliases (
          put_replicas req.replicas
            (put_text "phpConfigProfile" req.php_config_profile (put_php req.php m))))))

abbrev pub php_refused : Option String → Bool
php_refused none = false
php_refused (some version) = not (is_php_version version)

-- `obj.Object["spec"] = spec`
abbrev pub with_spec : Unstructured → Fields → Unstructured
with_spec o m = record o { spec = object m }

abbrev pub with_aliases : Unstructured → List String → Unstructured
with_aliases o l = with_spec o (put "aliases" (slice (of_texts l)) (or_empty (spec_of o)))

-- The website with the alias behind the others, and without the alias.
unfoldable pub with_alias : Unstructured → String → Unstructured
with_alias o alias = with_aliases o (extract_aliases o ++ alias ∷ [])

unfoldable pub without_alias : Unstructured → String → Unstructured
without_alias o alias = with_aliases o (keep (λ a. not (str_eq a alias)) (extract_aliases o))

unfoldable pub with_phase : Unstructured → String → Unstructured
with_phase o phase = record o {
  status = object (put "phase" (Values.text phase) (or_empty (as_map o.status)));
}
