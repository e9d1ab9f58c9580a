-- ===== src/Api/Emails/Create.antt =====
-- `CreateEmail` of emails.go.
use kubecp.Common.Text.{contains, is_empty}
use kubecp.Common.Exec.{Result, attempt, err, fail_if, ok, on_error, pure, raise, ◌>>=◌, ◌>>◌}
use kubecp.Common.{
  Bool, List, Option, String, [], false, if◌then◌else◌, ltb, none, not, some, ◌<>◌, ◌==◌, ◌∷◌,
}
use kubecp.Api.Emails.Objects.{email_response, new_email}
use kubecp.Api.Emails.Data.{
  CreateEmailRequest, EmailView, completed, email_view, is_email_address, mail_user,
}
use kubecp.Api.Crd.Quota.{QuotaError, check_quota, out_of, refuse_quota}
use kubecp.Api.Crd.Owned.{Effect, decode_body, hosting_namespace, internal, owns, require_claims}
use kubecp.Api.Crd.Client.{
  AdminError, Dynamic, Unicode, Unstructured, User, create_object, create_user, email_accounts,
  email_domains, get_object, list_users, set_password,
}
use Prim.Native.String.{len}
use kubecp.Api.Websites.Objects.{sanitize_domain}
use kubecp.Http.{
  text, Exit, Response, TokenClaims, reply, write_bad_request, write_conflict, write_forbidden,
  write_json,
}

abbrev bad : String → Exit EmailView
bad message = reply (write_bad_request message none)

abbrev quota_text : QuotaError → String
quota_text e = "Email account creation would exceed hosting plan limit (" <> out_of e <> ")"

abbrev create_error : String → String → Exit EmailView
create_error address e =
    if contains e "already exists"
    then reply
        (write_conflict "Email account already exists" (some (("address", text address) ∷ [])))
    else internal "Failed to create email account: " e

abbrev pub domain_error : String → String → Exit EmailView
domain_error domain e =
    if contains e "not found"
    then reply (
        write_bad_request "Email domain not found — register the domain first"
          (some (("domain", text domain) ∷ [])))
    else internal "Failed to verify email domain: " e

abbrev keycloak_error : String → AdminError → Exit EmailView
keycloak_error what e = internal what e.text

-- `ae, ok := err.(*keycloak.AdminError); ok && ae.StatusCode == 409`
abbrev pub is_duplicate : AdminError → Bool
is_duplicate e = elim e.status [ none ↦ false | some status ↦ status == 409 ]

-- The identifier of the first user found, "" where there is none.
abbrev pub first_id : Result AdminError (List User) → String
first_id (err e) = ""
first_id (ok []) = ""
first_id (ok (user ∷ l)) = user.id

module _ (d : Dynamic) (u : Unicode) where
  abbrev Reply : Type 0
  Reply = Effect d EmailView (Response EmailView)

  unfoldable pub find_user : String → Effect d EmailView String
  find_user address = do users ← attempt (list_users d address); pure (first_id users)

  -- What follows on the creation of the Keycloak user: its identifier, or that of one that is there.
  unfoldable pub known_user : String → Result AdminError String → Effect d EmailView String
  known_user address (ok id) = pure id
  known_user address (err e) =
      if is_duplicate e
      then find_user address
      else raise (keycloak_error "Failed to create Keycloak user for email: " e)

  unfoldable pub change_password : String → String → Effect d EmailView (Unit {0})
  change_password id password =
      if is_empty id
      then pure tt
      else on_error (keycloak_error "Failed to set email password in Keycloak: ")
          (set_password d id password)

  -- The user for the address and its password, where Keycloak is configured.
  unfoldable pub register_user : CreateEmailRequest → Effect d EmailView (Unit {0})
  register_user req =
      if d.has_keycloak
      then (do
        created ← attempt (create_user d (mail_user req))
        id ← known_user req.address created
        change_password id req.password)
      else pure tt

  -- The domain, which must be the caller's.
  unfoldable pub load_domain : TokenClaims → String → Effect d EmailView Unstructured
  load_domain claims domain = do
    o ←
        on_error (domain_error domain)
          (get_object d email_domains (some hosting_namespace) (sanitize_domain domain))
    fail_if (not (owns claims o)) (reply (write_forbidden "Email domain belongs to another user"))
    pure o

  unfoldable pub check_email : CreateEmailRequest → Effect d EmailView (Unit {0})
  check_email req = do
    fail_if (is_empty req.address) (bad "Email address is required")
    fail_if (not (is_email_address req.address)) (
        reply (
          write_bad_request "Invalid email address format"
            (some (("given", text req.address) ∷ []))))
    fail_if (is_empty req.domain) (bad "Domain is required")
    fail_if (is_empty req.password) (bad "Password is required")
    fail_if (ltb (len req.password) 8) (bad "Password must be at least 8 characters")

  unfoldable pub create_email : Option TokenClaims → Option CreateEmailRequest → Reply
  create_email c body = do
    claims ← require_claims d EmailView c
    asked ← decode_body d EmailView body
    let req = completed asked
    check_email req
    register_user req
    load_domain claims req.domain
    quota ← check_quota d EmailView email_accounts "emailAccounts"
    refuse_quota d EmailView quota_text "emailAccount" quota
    created ←
        on_error (create_error req.address) (
          create_object d email_accounts (some hosting_namespace) (new_email u req claims.username))
    pure (write_json 201 (email_view (email_response created)))
