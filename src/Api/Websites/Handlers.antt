-- ===== src/Api/Websites/Handlers.antt =====
-- The handlers of websites.go.
use kubecp.Api.Crd.Quota.{QuotaError, out_of, refuse_quota}
use kubecp.Operator.Website.Dns.{created}
use kubecp.Common.{
  String, ◌<>◌, str_eq, Bool, not, ◌&&◌, Option, none, some, [], ◌∷◌, any, map, if◌then◌else◌,
}
use kubecp.Common.Text.{is_empty, trim_space, contains}
use kubecp.Common.Exec.{pure, raise, on_error, ignore, fail_if, ◌>>=◌, ◌>>◌}
use kubecp.Http.{
  Response, no_body, Exit, reply, TokenClaims, text_list, text, write_bad_request, write_conflict,
  write_not_found, write_json,
}
use kubecp.Api.Crd.Values.{or_empty}
use kubecp.Api.Crd.Client.{
  Unstructured, Dynamic, Unicode, websites, email_domains, list_objects, create_object,
  update_object, update_status, delete_object, create_zone, spec_of,
}
use kubecp.Api.Crd.Owned.{
  hosting_namespace, selector_of, Refusals, internal, Effect, require_claims, decode_body,
  load_owned, load_for,
}
use kubecp.Api.Websites.Data.{
  CreateWebsiteRequest, UpdateWebsiteRequest, WebsiteView, website_view, websites_view,
  aliases_view, phase_view, stats_view,
}
use kubecp.Api.Websites.Objects.{extract_aliases, website_response}
use kubecp.Api.Websites.Checks.{check_domain_uniqueness, resolve_owner_uid, check_website_quota}
use kubecp.Api.Websites.Specs.{
  valid_php_versions, is_php_version, completed, new_website, new_email_domain, php_refused,
  with_spec, with_phase, updated_spec, with_alias, without_alias,
}

-- `WebsiteHandler`: whether a creator of DNS zones is configured
pub record WebsiteSettings : Type 0 where
  pub has_dns : Bool

abbrev create_error : String → String → Exit WebsiteView
create_error domain e =
    if contains e "already exists"
    then reply
        (write_conflict "Website already exists" (some (("primaryDomain", text domain) ∷ [])))
    else internal "Failed to create website: " e

-- `qErr.Error()`
abbrev quota_text : QuotaError → String
quota_text e = "Website quota exceeded (" <> out_of e <> ")"

abbrev bad : String → Exit WebsiteView
bad message = reply (write_bad_request message none)

abbrev pub no_access : String → Refusals
no_access message = record {
  missing = "Website not found";
  failing = "Failed to get website: ";
  denied = message;
}

module _ (d : Dynamic) (u : Unicode) where
  abbrev Reply : Type 0
  Reply = Effect d WebsiteView (Response WebsiteView)

  abbrev load : Option TokenClaims → String → String → Effect d WebsiteView Unstructured
  load c message id = load_for d WebsiteView websites (no_access message) c id

  unfoldable pub list_all : Option TokenClaims → Reply
  list_all c = do
    claims ← require_claims d WebsiteView c
    l ←
        on_error (internal "Failed to list websites: ")
          (list_objects d websites (some hosting_namespace) (selector_of claims))
    pure (write_json 200 (websites_view (map website_response l)))

  -- `if err := check(…); err != nil { … return }`
  unfoldable pub refuse_taken : Option String → Effect d WebsiteView (Unit {0})
  refuse_taken none = pure tt
  refuse_taken (some message) = raise (reply (write_conflict message none))

  -- The DNS zone that may come with a website.
  unfoldable pub add_zone : WebsiteSettings → CreateWebsiteRequest → Effect d WebsiteView (Unit {0})
  add_zone h req =
      if req.create_dns_zone && h.has_dns
      then ignore
          (create_zone d (req.primary_domain <> ".") (("ns1." <> req.primary_domain <> ".") ∷ []))
      else pure tt

  -- The e-mail domain that may come with a website.
  unfoldable pub add_email_domain : CreateWebsiteRequest → String → Effect d WebsiteView (Unit {0})
  add_email_domain req username =
      if req.create_email_domain
      then ignore (
          create_object d email_domains (some hosting_namespace)
            (new_email_domain req.primary_domain username))
      else pure tt

  unfoldable pub create_website :
      WebsiteSettings → Option TokenClaims → Option CreateWebsiteRequest → Reply
  create_website h c body = do
    claims ← require_claims d WebsiteView c
    asked ← decode_body d WebsiteView body
    let req = completed asked
    fail_if (is_empty req.primary_domain) (bad "primaryDomain is required")
    fail_if (not (is_php_version req.php)) (
        reply (
          write_bad_request "Invalid PHP version"
            (some (("allowed", text_list valid_php_versions) ∷ []))))
    quota ← check_website_quota d WebsiteView
    refuse_quota d WebsiteView quota_text "website" quota
    clash ← check_domain_uniqueness d WebsiteView u req.primary_domain req.aliases
    refuse_taken clash
    uid ← resolve_owner_uid d WebsiteView claims.username
    created ←
        on_error (create_error req.primary_domain)
          (create_object d websites (some hosting_namespace) (new_website req claims.username uid))
    add_zone h req
    add_email_domain req claims.username
    pure (write_json 201 (website_view (website_response created)))

  unfoldable pub get_website : Option TokenClaims → String → Reply
  get_website c id = do
    o ← load c "Access denied: website belongs to another user" id
    pure (write_json 200 (website_view (website_response o)))

  -- How the handlers that change a website end.
  unfoldable pub store : Unstructured → Effect d WebsiteView Unstructured
  store o =
      on_error (internal "Failed to update website: ")
        (update_object d websites (some hosting_namespace) o)

  unfoldable pub update_website : Option TokenClaims → String → Option UpdateWebsiteRequest → Reply
  update_website c id body = do
    o ← load c "Access denied" id
    req ← decode_body d WebsiteView body
    fail_if (php_refused req.php) (bad "Invalid PHP version")
    stored ← store (with_spec o (updated_spec req (or_empty (spec_of o))))
    pure (write_json 200 (website_view (website_response stored)))

  unfoldable pub delete_website : Option TokenClaims → String → Reply
  delete_website c id = do
    o ← load c "Access denied" id
    on_error (internal "Failed to delete website: ")
        (delete_object d websites (some hosting_namespace) id)
    pure (record { status = 204; body = no_body })

  unfoldable pub list_aliases : Option TokenClaims → String → Reply
  list_aliases c id = do
    o ← load c "Access denied" id
    pure (write_json 200 (aliases_view (extract_aliases o)))

  -- The alias that a request names.
  unfoldable pub asked_alias : Option String → Effect d WebsiteView String
  asked_alias body = do
    asked ← decode_body d WebsiteView body
    fail_if (is_empty (trim_space asked)) (bad "alias is required")
    pure (trim_space asked)

  unfoldable pub add_alias : Option TokenClaims → String → Option String → Reply
  add_alias c id body = do
    claims ← require_claims d WebsiteView c
    alias ← asked_alias body
    clash ← check_domain_uniqueness d WebsiteView u alias []
    refuse_taken clash
    o ← load_owned d WebsiteView websites (no_access "Access denied") claims id
    fail_if (any (λ a. str_eq a alias) (extract_aliases o))
        (reply (write_conflict "Alias already exists" none))
    stored ← store (with_alias o alias)
    pure (write_json 201 (website_view (website_response stored)))

  unfoldable pub remove_alias : Option TokenClaims → String → Option String → Reply
  remove_alias c id body = do
    claims ← require_claims d WebsiteView c
    alias ← asked_alias body
    o ← load_owned d WebsiteView websites (no_access "Access denied") claims id
    fail_if (not (any (λ a. str_eq a alias) (extract_aliases o)))
        (reply (write_not_found "Alias not found"))
    store (without_alias o alias)
    pure (record { status = 204; body = no_body })

  unfoldable pub set_website_phase : Option TokenClaims → String → String → Reply
  set_website_phase c id phase = do
    o ← load c "Access denied" id
    on_error (internal "Failed to update website status: ")
        (update_status d websites (some hosting_namespace) (with_phase o phase))
    pure (write_json 200 (phase_view phase id))

  unfoldable pub get_website_stats : Option TokenClaims → String → String → Reply
  get_website_stats c id period = do
    o ← load c "Access denied" id
    pure (write_json 200 (stats_view id period))
