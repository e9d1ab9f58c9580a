-- ===== src/Api/Websites/RoundTrip.antt =====
-- On a new website of websites.go, read back by the conversions.
use kubecp.Api.Websites.Checks.{taken}
use kubecp.Api.Websites.Domains.{Distinct, taken-Distinct}
use kubecp.Api.Crd.Client.{spec_of, Unstructured}
use kubecp.Api.Websites.Domains.{site_domains}
use kubecp.Api.Websites.Checks.{domains_of}
use kubecp.Api.Crd.Owned.{hosting_namespace}
use kubecp.Api.Websites.Objects.{
  has_entries, resources_to_unstructured, ssl_to_unstructured, extract_alias_strings,
  sanitize_domain,
}
use kubecp.Common.{
  Bool, Option, String, if◌then◌else◌, none, refl, some, str_eq, ◌&&◌, ◌≡◌, arith, lt_int, pos, ℤ,
  ◌||◌, List, [], ◌∷◌, Char, ◌++◌,
}
use kubecp.Api.Websites.Specs.{
  base_spec, new_spec, put_if, put_ssl, has_texts, new_website, replicas_of,
}
use kubecp.Api.Websites.Data.{
  CreateWebsiteRequest, WebsiteDomainSsl, WebsiteResources, WebsiteResponse,
}
use kubecp.Api.Crd.Values.{
  Fields, Value, get, get-put, Values, int64, object, of_texts, slice, as_slice, texts_of,
  texts_of-of_texts,
}
use kubecp.Api.Crd.Values
use Prim.Native.String.{[], ◌∷◌}

get-put_if :
    (b : Bool) (j k : String) (v : Value) (m : Fields)
    → get k (put_if b j v m) ≡ (if str_eq j k && b then v else get k m)
get-put_if b j k v m = ground (arith, get-put j k v m)

abbrev ssl_value : Option WebsiteDomainSsl → Option Value
ssl_value none = none
ssl_value (some s) = some (object (ssl_to_unstructured s))

abbrev or_value : Option Value → Value → Value
or_value none v = v
or_value (some x) v = x

get-put_ssl :
    (s : Option WebsiteDomainSsl) (k : String) (m : Fields)
    → get k (put_ssl s m) ≡ (if str_eq "ssl" k then or_value (ssl_value s) (get k m) else get k m)
get-put_ssl none k m = ground arith
get-put_ssl (some s) k m = get-put "ssl" k (object (ssl_to_unstructured s)) m

pub texts_lem :
    (l : List String)
    → texts_of (as_slice (if has_texts l then slice (of_texts l) else Values.nil)) ≡ l
unfolding texts_of
texts_lem [] = refl
texts_lem (s ∷ l) = texts_of-of_texts (s ∷ l)

abbrev resources_value : WebsiteResources → Value
resources_value r =
    if has_entries r.requests || has_entries r.limits
    then object (resources_to_unstructured r)
    else Values.nil

-- What the API shows of a website that was just asked for.
abbrev pub shown : CreateWebsiteRequest → String → WebsiteResponse
shown req username = record {
  id = sanitize_domain req.primary_domain;
  name = sanitize_domain req.primary_domain;
  namespace = hosting_namespace;
  primary_domain = req.primary_domain;
  aliases = req.aliases;
  owner = username;
  php = req.php;
  php_config_profile = req.php_config_profile;
  ssl = req.ssl;
  replicas = replicas_of req.replicas;
  resources = req.resources;
  storage_size = req.storage_size;
  status = record { phase = ""; replicas = pos 0; ready_replicas = pos 0; domains = [] };
  created_at = "";
}

module _ (req : CreateWebsiteRequest) (username : String) (uid : ℤ) where
  abbrev has_resources : Bool
  has_resources = has_entries req.resources.requests || has_entries req.resources.limits

  abbrev aliases_or_base : String → Value
  aliases_or_base k =
      if str_eq "aliases" k && has_texts req.aliases
      then slice (of_texts req.aliases)
      else get k (base_spec req username)

  get-new_spec :
      (k : String)
      → get k (new_spec req username uid) ≡ (
          if str_eq "ownerUID" k && lt_int (pos 0) uid
          then int64 uid
          else if str_eq "resources" k && has_resources
          then object (resources_to_unstructured req.resources)
          else if str_eq "ssl" k
          then or_value (ssl_value req.ssl) (aliases_or_base k)
          else aliases_or_base k)
  unfolding new_spec
  get-new_spec k = rw (get-put_if, get-put_if, get-put_ssl, get-put_if) refl

  aliases_lem : texts_of (as_slice (get "aliases" (new_spec req username uid))) ≡ req.aliases
  unfolding get
  aliases_lem = rw (get-new_spec "aliases") (texts_lem req.aliases)

  -- The domains that the check of later websites will see.
  pub domains_of-new_website :
      site_domains (spec_of (new_website req username uid)) ≡ req.primary_domain ∷ req.aliases
  unfolding new_website get domains_of extract_alias_strings
  domains_of-new_website = simp aliases_lem (simp get-new_spec)

-- A new website whose primary domain and aliases passed the check of domains may join the listed
-- websites: where no domain belonged to two of them, up to case, none does afterwards.
pub new_website-Distinct :
    (fold : Char → Char) (req : CreateWebsiteRequest) (username : String) (uid : ℤ)
    (sites : List Unstructured)
    → taken fold (req.primary_domain ∷ req.aliases) sites ≡ none
    → Distinct fold sites
    → Distinct fold (sites ++ new_website req username uid ∷ [])
new_website-Distinct fold req username uid sites free distinct =
    taken-Distinct fold (req.primary_domain ∷ req.aliases) sites (new_website req username uid)
      (domains_of-new_website req username uid) free distinct
