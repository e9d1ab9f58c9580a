-- ===== src/Api/Websites/Objects.antt =====
-- Websites as unstructured objects: the conversions of websites.go.
use kubecp.Common.{pos, String, Bool, true, false, Option, none, some, List, [], ◌∷◌, if◌then◌else◌}
use kubecp.Common.Text.{is_empty, replace_char}
use kubecp.Api.Crd.Values.{
  Value, bool, text, object, Values, no_values, value, Fields, no_fields, entry, get, put, as_map,
  as_text, as_bool, as_slice, texts_of, int_or_zero,
}
use kubecp.Api.Crd.Client.{LabelMap, lookup_label, Unstructured, spec_of}
use kubecp.Api.Websites.Data.{
  WebsiteDomainSsl, WebsiteResources, WebsiteDomainStatus, WebsiteStatusInfo, WebsiteResponse,
}

-- `sanitizeDomain`
unfoldable pub sanitize_domain : String → String
sanitize_domain domain = replace_char b'.' "-" domain

-- `if text != "" { m[key] = text }`
abbrev pub put_unless_empty : String → String → Fields → Fields
put_unless_empty key s m = if is_empty s then m else put key (text s) m

-- `sslToUnstructured` of a value that is not nil
unfoldable pub ssl_to_unstructured : WebsiteDomainSsl → Fields
ssl_to_unstructured ssl = put_unless_empty "secretName" ssl.secret_name (
    put_unless_empty "issuer" ssl.issuer
      (put_unless_empty "mode" ssl.mode (entry "enabled" (bool ssl.enabled) no_fields)))

abbrev pub has_entries : List (String × String) → Bool
has_entries [] = false
has_entries (p ∷ l) = true

unfoldable pub fields_of : List (String × String) → Fields
fields_of [] = no_fields
fields_of ((k, v) ∷ l) = entry k (text v) (fields_of l)

abbrev pub put_texts : String → List (String × String) → Fields → Fields
put_texts key l m = if has_entries l then put key (object (fields_of l)) m else m

-- `resourcesToUnstructured`
unfoldable pub resources_to_unstructured : WebsiteResources → Fields
resources_to_unstructured r =
    put_texts "limits" r.limits (put_texts "requests" r.requests no_fields)

-- `extractAliasStrings`
unfoldable pub extract_alias_strings : Option Fields → List String
extract_alias_strings none = []
extract_alias_strings (some spec) = texts_of (as_slice (get "aliases" spec))

-- `extractAliases`
abbrev pub extract_aliases : Unstructured → List String
extract_aliases o = extract_alias_strings (spec_of o)

abbrev cons_pair : String → Value → List (String × String) → List (String × String)
cons_pair k (text s) rest = (k, s) ∷ rest
cons_pair k _ rest = rest

unfoldable pub pairs_of : Fields → List (String × String)
pairs_of no_fields = []
pairs_of (entry k v m) = cons_pair k v (pairs_of m)

abbrev pub pairs_or_none : Option Fields → List (String × String)
pairs_or_none none = []
pairs_or_none (some m) = pairs_of m

-- `unstructuredToResources`
unfoldable pub unstructured_to_resources : Fields → WebsiteResources
unstructured_to_resources m = record {
  requests = pairs_or_none (as_map (get "requests" m));
  limits = pairs_or_none (as_map (get "limits" m));
}

abbrev pub ssl_of : Option Fields → Option WebsiteDomainSsl
ssl_of none = none
ssl_of (some m) = some (record {
  enabled = as_bool (get "enabled" m);
  mode = as_text (get "mode" m);
  issuer = as_text (get "issuer" m);
  secret_name = as_text (get "secretName" m);
})

abbrev pub version_of : Option Fields → String
version_of none = ""
version_of (some php) = as_text (get "version" php)

abbrev pub resources_of : Option Fields → WebsiteResources
resources_of none = record { requests = []; limits = [] }
resources_of (some m) = unstructured_to_resources m

abbrev cons_domain : Option Fields → List WebsiteDomainStatus → List WebsiteDomainStatus
cons_domain none rest = rest
cons_domain (some m) rest =
    record {
      name = as_text (get "name" m);
      certificate_status = as_text (get "certificateStatus" m);
      certificate_expiry = as_text (get "certificateExpiry" m);
    }
    ∷ rest

unfoldable pub domain_statuses_of : Values → List WebsiteDomainStatus
domain_statuses_of no_values = []
domain_statuses_of (value v l) = cons_domain (as_map v) (domain_statuses_of l)

abbrev status_of : Option Fields → WebsiteStatusInfo
status_of none = record { phase = ""; replicas = pos 0; ready_replicas = pos 0; domains = [] }
status_of (some m) = record {
  phase = as_text (get "phase" m);
  replicas = int_or_zero (get "replicas" m);
  ready_replicas = int_or_zero (get "readyReplicas" m);
  domains = domain_statuses_of (as_slice (get "domains" m));
}

abbrev pub label_or_empty : Option LabelMap → String → String
label_or_empty none key = ""
label_or_empty (some m) key = elim (lookup_label m key) [ none ↦ "" | some s ↦ s ]

abbrev response_of : Unstructured → Option Fields → WebsiteResponse
response_of o none = record {
  id = o.name;
  name = o.name;
  namespace = o.namespace;
  primary_domain = "";
  aliases = [];
  owner = label_or_empty o.labels "hosting.panel/user";
  php = "";
  php_config_profile = "";
  ssl = none;
  replicas = pos 0;
  resources = record { requests = []; limits = [] };
  storage_size = "";
  status = status_of (as_map o.status);
  created_at = o.created;
}
response_of o (some spec) = record {
  id = o.name;
  name = o.name;
  namespace = o.namespace;
  primary_domain = as_text (get "primaryDomain" spec);
  aliases = extract_alias_strings (some spec);
  owner = as_text (get "owner" spec);
  php = version_of (as_map (get "php" spec));
  php_config_profile = as_text (get "phpConfigProfile" spec);
  ssl = ssl_of (as_map (get "ssl" spec));
  replicas = int_or_zero (get "replicas" spec);
  resources = resources_of (as_map (get "resources" spec));
  storage_size = as_text (get "storageSize" spec);
  status = status_of (as_map o.status);
  created_at = o.created;
}

-- `unstructuredToWebsiteResponse`
unfoldable pub website_response : Unstructured → WebsiteResponse
website_response o = response_of o (spec_of o)
