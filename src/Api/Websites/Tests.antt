-- ===== src/Api/Websites/Tests.antt =====
-- The handlers of websites.go at concrete requests.
use kubecp.Middleware.Rbac.{has_role, is_owner_by_label}
use kubecp.Common.Exec.{attempt, fail_if, ignore, on_error, pure, raise, ◌>>=◌, ◌>>◌}
use kubecp.Api.Crd.Quota.{
  check_quota, compare_quota, get_limit, over_quota, plan_limit, refuse_quota,
}
use kubecp.Api.Crd.Owned.{decode_body, load_for, load_owned, require_claims}
use kubecp.Common.Text.{equal_fold_by, fold_case, is_space, trim_space}
use kubecp.Common.{
  All, [], any, arith, false, none, pos, refl, some, str_eq, true, ℕ, ◌++◌, ◌↔◌, ◌∷◌, ◌≡◌, ◌≤◌,
  to_int32,
}
use kubecp.Api.Websites.Uids.{Below, Fits, next_uid-Fresh}
use kubecp.Api.Websites.Tenants.{serve_website-Owned}
use kubecp.Api.Websites.Specs.{completed, new_website, with_alias, without_alias, is_php_version}
use kubecp.Api.Websites.Routes.{serve_website, updates, removes}
use kubecp.Api.Websites.RoundTrip.{new_website-Distinct}
use kubecp.Api.Websites.Objects.{extract_alias_strings, extract_aliases, website_response}
use kubecp.Api.Websites.Handlers.{
  WebsiteSettings, create_website, add_email_domain, add_zone, delete_website, refuse_taken,
}
use kubecp.Api.Websites.Domains.{Apart, Distinct, site_domains, taken-none_iff}
use kubecp.Api.Websites.Data.{CreateWebsiteRequest, UpdateWebsiteRequest}
use kubecp.Api.Websites.Creation.{Admitted, create_website-Admitted}
use kubecp.Api.Websites.Checks.{
  domains_of, next_uid, taken, taken_in, uid_of, check_domain_uniqueness, resolve_owner_uid,
  reused_uid,
}
use kubecp.Api.Websites.Aliases.{remove-add}
use kubecp.Api.Crd.Values.{get, of_texts, put, texts_of}
use kubecp.Api.Crd.Sample.{alice, ascii, cluster, idle, site, mallory}
use kubecp.Api.Crd.Owned.Laws.{Called, May}
use kubecp.Api.Crd.Client.{
  Unstructured, spec_of, websites, calling, create_call, create_zone_call, delete_call, get_call,
  hosting_plans, list_call, lookup_label,
}

abbrev shop : CreateWebsiteRequest
shop = record {
  primary_domain = " shop.org ";
  aliases = "www.shop.org" ∷ [];
  php = "";
  php_config_profile = "";
  ssl = some (record { enabled = true; mode = "acme"; issuer = ""; secret_name = "" });
  replicas = none;
  resources = record { requests = ("cpu", "100m") ∷ []; limits = [] };
  storage_size = "";
  create_dns_zone = true;
  create_email_domain = false;
}

abbrev settings : WebsiteSettings
settings = record { has_dns = true }

abbrev update : UpdateWebsiteRequest
update = record {
  aliases = some [];
  php = some "8.3";
  php_config_profile = "";
  ssl = none;
  replicas = some (pos 2);
  resources = none;
  storage_size = "10Gi";
}

serve_website-Owned_example :
    Called
      (May cluster websites (some alice) "blog-org")
      (serve_website cluster ascii (some alice) "blog-org" (updates (some update)) idle).1
serve_website-Owned_example =
    serve_website-Owned cluster ascii (some alice) "blog-org" (updates (some update)) idle refl

create_website-Admitted_example :
    Called
      (Admitted cluster ascii alice shop)
      (create_website cluster ascii settings (some alice) (some shop) idle).1
create_website-Admitted_example =
    create_website-Admitted cluster ascii alice shop settings idle refl

taken-none_iff_example :
    (taken ascii.fold ("shop.org" ∷ []) (site ∷ []) ≡ none)
    ↔ All (λ o. Apart ascii.fold ("shop.org" ∷ []) (site_domains (spec_of o))) (site ∷ [])
taken-none_iff_example = taken-none_iff ascii.fold ("shop.org" ∷ []) (site ∷ [])

abbrev new_site : Unstructured
new_site = new_website (completed shop) "alice" (pos 2041)

abbrev free_shop : CreateWebsiteRequest
free_shop = record shop { primary_domain = "shop.org" }

new_site_free : taken ascii.fold ("shop.org" ∷ "www.shop.org" ∷ []) (site ∷ []) ≡ none
unfolding taken taken_in domains_of equal_fold_by fold_case get extract_alias_strings texts_of
new_site_free = refl

new_website-Distinct_example :
    Distinct ascii.fold ((site ∷ []) ++ new_website free_shop "alice" (pos 2041) ∷ [])
new_website-Distinct_example =
    new_website-Distinct ascii.fold free_shop "alice" (pos 2041) (site ∷ []) new_site_free (tt, tt)

site_has_no_alias : any (λ b. str_eq b "www.blog.org") (extract_aliases site) ≡ false
unfolding get extract_alias_strings texts_of
site_has_no_alias = refl

remove-add_example :
    extract_aliases (without_alias (with_alias site "www.blog.org") "www.blog.org")
    ≡ extract_aliases site
remove-add_example = remove-add site "www.blog.org" site_has_no_alias

site-Fits : All (λ o. Fits (uid_of o)) (site ∷ [])
unfolding get
site-Fits = (omega arith, tt)

next_uid-Fresh_example :
    (m : ℕ) × (next_uid (site ∷ []) ≡ pos m)
    × (2000 ≤ m)
    × All (λ o. Below (uid_of o) m) (site ∷ [])
next_uid-Fresh_example = next_uid-Fresh (site ∷ []) site-Fits

-- Alice deletes her website; for Mallory it is only looked up.
delete_run :
    ((serve_website cluster ascii (some alice) "blog-org" removes idle).1.calls
      ≡ get_call websites (some "hosting-system") "blog-org"
        ∷ delete_call websites (some "hosting-system") "blog-org"
        ∷ [])
    × ((serve_website cluster ascii (some mallory) "blog-org" removes idle).1.calls
        ≡ get_call websites (some "hosting-system") "blog-org" ∷ [])
unfolding serve_website delete_website load_for load_owned require_claims calling lookup_label
    is_owner_by_label has_role pure raise ◌>>=◌ ◌>>◌ on_error fail_if
delete_run = (refl, refl)

-- A creation reads the websites and the plans, the websites again and then those of the caller, whose
-- UID the new one gets, and asks for the zone.
create_run :
    (create_website cluster ascii settings (some alice) (some shop) idle).1.calls
    ≡ list_call websites (some "hosting-system") ""
      ∷ list_call hosting_plans none ""
      ∷ list_call websites (some "hosting-system") ""
      ∷ list_call websites (some "hosting-system") "hosting.panel/user=alice"
      ∷ create_call websites (some "hosting-system") new_site
      ∷ create_zone_call "shop.org." ("ns1.shop.org." ∷ [])
      ∷ []
unfolding create_website require_claims decode_body calling is_php_version check_quota compare_quota
    get_limit plan_limit over_quota refuse_quota check_domain_uniqueness refuse_taken
    resolve_owner_uid reused_uid add_zone add_email_domain website_response lookup_label completed
    trim_space is_space taken taken_in domains_of equal_fold_by fold_case get put texts_of of_texts
    extract_alias_strings pure raise attempt ignore ◌>>=◌ ◌>>◌ on_error fail_if to_int32
create_run = refl
