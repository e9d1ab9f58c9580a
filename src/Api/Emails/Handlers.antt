-- ===== src/Api/Emails/Handlers.antt =====
-- The handlers of emails.go.
use kubecp.Common.Exec.{fail_if, on_error, pure, raise, ◌>>=◌, ◌>>◌}
use kubecp.Common.{Option, String, [], false, map, none, not_positive, some, ℤ}
use kubecp.Api.Emails.Objects.{email_response, forwarding_fields, forwarding_of, without_forwarding}
use kubecp.Api.Emails.Data.{EmailForwarding, EmailView, email_view, emails_view, forwarding_view}
use kubecp.Api.Crd.Values.{Value, int64, object, put}
use kubecp.Api.Crd.Owned.{
  Effect, Refusals, decode_body, hosting_namespace, internal, load_for, load_owned, require_claims,
  selector_of,
}
use kubecp.Api.Crd.Client.{
  Dynamic, Unicode, Unstructured, delete_object, email_accounts, list_objects, spec_of,
  update_object,
}
use kubecp.Api.Websites.Specs.{with_spec}
use kubecp.Http.{Exit, Response, TokenClaims, no_body, panic, reply, write_bad_request, write_json}

abbrev bad : String → Exit EmailView
bad message = reply (write_bad_request message none)

abbrev pub no_email : String → Refusals
no_email message = record {
  missing = "Email account not found";
  failing = "Failed to get email account: ";
  denied = message;
}

module _ (d : Dynamic) (u : Unicode) where
  abbrev Reply : Type 0
  Reply = Effect d EmailView (Response EmailView)

  abbrev load : Option TokenClaims → String → String → Effect d EmailView Unstructured
  load c message id = load_for d EmailView email_accounts (no_email message) c id

  unfoldable pub list_emails : Option TokenClaims → Reply
  list_emails c = do
    claims ← require_claims d EmailView c
    l ←
        on_error (internal "Failed to list email accounts: ")
          (list_objects d email_accounts (some hosting_namespace) (selector_of claims))
    pure (write_json 200 (emails_view (map email_response l)))

  unfoldable pub get_email : Option TokenClaims → String → Reply
  get_email c id = do
    o ← load c "Access denied: email account belongs to another user" id
    pure (write_json 200 (email_view (email_response o)))

  unfoldable pub delete_email : Option TokenClaims → String → Reply
  delete_email c id = do
    o ← load c "Access denied: email account belongs to another user" id
    on_error (internal "Failed to delete email account: ")
        (delete_object d email_accounts (some hosting_namespace) id)
    pure (record { status = 204; body = no_body })

  unfoldable pub get_forwarding : Option TokenClaims → String → Reply
  get_forwarding c id = do
    o ← load c "Access denied" id
    pure (
        write_json 200 (
          forwarding_view (elim (forwarding_of (spec_of o)) [
            | none ↦ record { enabled = false; addresses = []; keep_copy = false }
            | some f ↦ f
          ])))

  unfoldable pub store_email : Unstructured → Effect d EmailView Unstructured
  store_email o =
      on_error (internal "Failed to update email account: ")
        (update_object d email_accounts (some hosting_namespace) o)

  -- `spec[key] = v`, which panics where the object has no spec
  unfoldable pub with_entry : String → Value → Unstructured → Effect d EmailView Unstructured
  with_entry key v o = elim (spec_of o) [
    | none ↦ raise panic
    | some m ↦ pure (with_spec o (put key v m))
  ]

  unfoldable pub update_forwarding : Option TokenClaims → String → Option EmailForwarding → Reply
  update_forwarding c id body = do
    claims ← require_claims d EmailView c
    req ← decode_body d EmailView body
    o ← load_owned d EmailView email_accounts (no_email "Access denied") claims id
    changed ← with_entry "forwarding" (object (forwarding_fields req)) o
    stored ← store_email changed
    pure (write_json 200 (email_view (email_response stored)))

  unfoldable pub delete_forwarding : Option TokenClaims → String → Reply
  delete_forwarding c id = do
    o ← load c "Access denied" id
    store_email (without_forwarding o)
    pure (record { status = 204; body = no_body })

  unfoldable pub update_quota : Option TokenClaims → String → Option ℤ → Reply
  update_quota c id body = do
    claims ← require_claims d EmailView c
    quota ← decode_body d EmailView body
    fail_if (not_positive quota) (bad "quotaMB must be positive")
    o ← load_owned d EmailView email_accounts (no_email "Access denied") claims id
    changed ← with_entry "quotaMB" (int64 quota) o
    stored ← store_email changed
    pure (write_json 200 (email_view (email_response stored)))

-- The routes below /{id}, with what the request carries.
pub data EmailAction : Type 0 where
  reads removes reads_forwarding removes_forwarding : EmailAction
  forwards : Option EmailForwarding → EmailAction
  limits : Option ℤ → EmailAction

unfoldable pub serve_email :
    (d : Dynamic)
    → Unicode
    → Option TokenClaims
    → String
    → EmailAction
    → Effect d EmailView (Response EmailView)
serve_email d u c id reads = get_email d u c id
serve_email d u c id removes = delete_email d u c id
serve_email d u c id reads_forwarding = get_forwarding d u c id
serve_email d u c id removes_forwarding = delete_forwarding d u c id
serve_email d u c id (forwards body) = update_forwarding d u c id body
serve_email d u c id (limits body) = update_quota d u c id body
