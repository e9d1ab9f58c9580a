-- ===== src/Api/MailDomains/Handlers.antt =====
-- The handlers of email_domains.go.
use kubecp.Http.{
  Exit, Response, TokenClaims, no_body, panic, reply, write_bad_request, write_conflict, write_json,
}
use kubecp.Common.Text.{contains, is_empty, trim_space}
use kubecp.Common.Exec.{
  Result, attempt, err, fail_if, ignore, ok, on_error, pure, raise, ◌>>=◌, ◌>>◌,
}
use kubecp.Common.{
  Bool, List, Option, String, [], if◌then◌else◌, map, none, some, str_eq, ◌<>◌, ◌∷◌,
}
use kubecp.Api.MailDomains.Data.{
  CreateEmailDomainRequest, EmailDomainView, domain_name, domain_response, domain_view,
  domains_view, new_domain, rotating_view, spam_filter_of, spam_view, without_dkim,
}
use kubecp.Api.Crd.Values.{Value, Values, bool, object, put}
use kubecp.Api.Crd.Owned.{
  Effect, Refusals, decode_body, hosting_namespace, internal, load_for, load_owned, require_claims,
  selector_of,
}
use kubecp.Api.Crd.Client.{
  Dynamic, Unstructured, create_object, delete_object, email_accounts, email_domains, get_object,
  list_objects, spec_of, update_object, update_status,
}
use kubecp.Api.Crd.Values
use kubecp.Api.Websites.Objects.{sanitize_domain, label_or_empty}
use kubecp.Api.Websites.Specs.{with_spec}

abbrev pub no_domain : Refusals
no_domain = record {
  missing = "Email domain not found";
  failing = "Failed to get email domain: ";
  denied = "Access denied";
}

abbrev create_error : String → Exit EmailDomainView
create_error e =
    if contains e "already exists"
    then reply (write_conflict "Email domain already exists" none)
    else internal "Failed to create email domain: " e

-- The refusal of a domain that is there, with its owner.
abbrev registered : TokenClaims → Unstructured → Exit EmailDomainView
registered claims o =
    if str_eq (label_or_empty o.labels "hosting.panel/user") claims.username
    then reply (write_conflict "Email domain already registered to your account" none)
    else reply (write_conflict "Email domain is already registered by another user" none)

abbrev pub accounts_of : String → String
accounts_of domain = "hosting.panel/email-domain=" <> domain

module _ (d : Dynamic) where
  abbrev Reply : Type 0
  Reply = Effect d EmailDomainView (Response EmailDomainView)

  abbrev load : Option TokenClaims → String → Effect d EmailDomainView Unstructured
  load c id = load_for d EmailDomainView email_domains no_domain c id

  unfoldable pub list_email_domains : Option TokenClaims → Reply
  list_email_domains c = do
    claims ← require_claims d EmailDomainView c
    l ←
        on_error (internal "Failed to list email domains: ")
          (list_objects d email_domains (some hosting_namespace) (selector_of claims))
    pure (write_json 200 (domains_view (map domain_response l)))

  unfoldable pub refuse_registered :
      TokenClaims → Result String Unstructured → Effect d EmailDomainView (Unit {0})
  refuse_registered claims (err e) = pure tt
  refuse_registered claims (ok o) = raise (registered claims o)

  unfoldable pub create_email_domain : Option TokenClaims → Option CreateEmailDomainRequest → Reply
  create_email_domain c body = do
    claims ← require_claims d EmailDomainView c
    req ← decode_body d EmailDomainView body
    let domain = trim_space req.domain
    fail_if (is_empty domain) (reply (write_bad_request "domain is required" none))
    existing ←
        attempt (get_object d email_domains (some hosting_namespace) (sanitize_domain domain))
    refuse_registered claims existing
    created ← on_error create_error (
        create_object d email_domains (some hosting_namespace)
          (new_domain req domain claims.username))
    pure (write_json 201 (domain_view (domain_response created)))

  unfoldable pub get_email_domain : Option TokenClaims → String → Reply
  get_email_domain c id = do o ← load c id; pure (write_json 200 (domain_view (domain_response o)))

  -- The loop over the accounts; an error of a deletion is dropped.
  unfoldable pub delete_accounts : List Unstructured → Effect d EmailDomainView (Unit {0})
  delete_accounts [] = pure tt
  delete_accounts (account ∷ l) = do
    ignore (delete_object d email_accounts (some hosting_namespace) account.name)
    delete_accounts l

  unfoldable pub delete_listed :
      Result String (List Unstructured) → Effect d EmailDomainView (Unit {0})
  delete_listed (err e) = pure tt
  delete_listed (ok l) = delete_accounts l

  unfoldable pub delete_accounts_of : String → Effect d EmailDomainView (Unit {0})
  delete_accounts_of domain = if is_empty domain then pure tt else (do
    accounts ← attempt (list_objects d email_accounts (some hosting_namespace) (accounts_of domain))
    delete_listed accounts)

  unfoldable pub delete_email_domain : Option TokenClaims → String → Reply
  delete_email_domain c id = do
    o ← load c id
    delete_accounts_of (domain_name o)
    on_error (internal "Failed to delete email domain: ")
        (delete_object d email_domains (some hosting_namespace) id)
    pure (record { status = 204; body = no_body })

  unfoldable pub rotate_dkim : Option TokenClaims → String → Reply
  rotate_dkim c id = do
    o ← load c id
    ignore (update_status d email_domains (some hosting_namespace) (without_dkim o))
    pure (write_json 200 rotating_view)

  unfoldable pub get_spam_config : Option TokenClaims → String → Reply
  get_spam_config c id = do
    o ← load c id
    pure (write_json 200 (spam_view (spam_filter_of (spec_of o))))

  -- The object whose spec is to be stored; a write into a nil map panics.
  unfoldable pub with_entry : String → Value → Unstructured → Effect d EmailDomainView Unstructured
  with_entry key v o = elim (spec_of o) [
    | none ↦ raise panic
    | some m ↦ pure (with_spec o (put key v m))
  ]

  unfoldable pub with_filter : Option Bool → Unstructured → Effect d EmailDomainView Unstructured
  with_filter none o =
      pure (record o { spec = elim (spec_of o) [ none ↦ Values.nil | some m ↦ object m ] })
  with_filter (some b) o = with_entry "spamFilter" (bool b) o

  unfoldable pub store_domain : Unstructured → Reply
  store_domain o = do
    updated ←
        on_error (internal "Failed to update email domain: ")
          (update_object d email_domains (some hosting_namespace) o)
    pure (write_json 200 (domain_view (domain_response updated)))

  unfoldable pub update_spam_config : Option TokenClaims → String → Option (Option Bool) → Reply
  update_spam_config c id body = do
    claims ← require_claims d EmailDomainView c
    asked ← decode_body d EmailDomainView body
    o ← load_owned d EmailDomainView email_domains no_domain claims id
    changed ← with_filter asked o
    store_domain changed

  unfoldable pub update_catch_all : Option TokenClaims → String → Option String → Reply
  update_catch_all c id body = do
    claims ← require_claims d EmailDomainView c
    asked ← decode_body d EmailDomainView body
    o ← load_owned d EmailDomainView email_domains no_domain claims id
    changed ← with_entry "catchAll" (Values.text asked) o
    store_domain changed

-- The routes below /{id}, with what the request carries.
pub data DomainAction : Type 0 where
  reads removes rotates reads_filter : DomainAction
  filters : Option (Option Bool) → DomainAction
  catches : Option String → DomainAction

unfoldable pub serve_domain :
    (d : Dynamic)
    → Option TokenClaims
    → String
    → DomainAction
    → Effect d EmailDomainView (Response EmailDomainView)
serve_domain d c id reads = get_email_domain d c id
serve_domain d c id removes = delete_email_domain d c id
serve_domain d c id rotates = rotate_dkim d c id
serve_domain d c id reads_filter = get_spam_config d c id
serve_domain d c id (filters body) = update_spam_config d c id body
serve_domain d c id (catches body) = update_catch_all d c id body
