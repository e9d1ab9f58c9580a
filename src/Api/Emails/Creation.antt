-- ===== src/Api/Emails/Creation.antt =====
-- On the objects that `CreateEmail` of emails.go writes.
use kubecp.Api.Emails.Keycloak.{fresh}
use kubecp.Api.Websites.Objects.{sanitize_domain}
use kubecp.Http.{TokenClaims}
use kubecp.Common.Text.{trim_space}
use kubecp.Common.Exec.{
  Keeps, Keeps-attempt, Keeps-bind, Keeps-bind_known, Keeps-fail_if, Keeps-if, Keeps-on_error,
  Keeps-pure, Keeps-raise, Keeps-then, Result, err, ok, bind_ok, ok-injective, on_error_ok, pure,
  unless_ok, Keeps-then_known,
}
use kubecp.Common.{String, [], ap, refl, some, true, ◌∙◌, ◌≡◌, not, not-false, subst}
use kubecp.Api.Emails.Objects.{new_email}
use kubecp.Api.Emails.Create.{
  change_password, check_email, create_email, find_user, known_user, load_domain, register_user,
  domain_error,
}
use kubecp.Api.Emails.Data.{CreateEmailRequest, EmailView, completed, is_email_address, mail_user}
use kubecp.Api.Crd.Quota.Laws.{HasRoom, check_quota-HasRoom, check_quota-Keeps, refuse_quota-Keeps}
use kubecp.Api.Crd.Owned.Laws.{Called, calling-Keeps, claims-Keeps, decoded-Keeps}
use kubecp.Api.Crd.Owned.{Effect, hosting_namespace, owns}
use kubecp.Api.Crd.Client.{
  AdminError, Call, Dynamic, Panel, Unicode, Unstructured, calling, create_call, create_user_call,
  create_zone_call, delete_call, email_accounts, email_domains, get_call, get_namespace_call,
  list_call, list_users_call, put_namespace_call, set_password_call, status_call, update_call,
}

module _ (d : Dynamic) (u : Unicode) (claims : TokenClaims) (asked : CreateEmailRequest) where
  -- The server answered a read of the domain of the request with this object, which the caller owns.
  abbrev OwnDomain : Unstructured → Type 0
  OwnDomain o =
      ((s : d.State) × ((d.get email_domains (some hosting_namespace)
            (sanitize_domain (trim_space asked.domain)) s).0
          ≡ ok o))
      × (owns claims o ≡ true)

  -- A list or a read, a call of Keycloak, or the creation of the caller's account in his domain.
  abbrev pub Admitted : Call → Type 0
  Admitted (list_call r scope selector) = Unit
  Admitted (get_call r scope name) = Unit
  Admitted (create_call r scope o) =
      (r ≡ email_accounts)
      × (scope ≡ some hosting_namespace)
      × (o ≡ new_email u (completed asked) claims.username)
      × (is_email_address (trim_space asked.address) ≡ true)
      × ((o : Unstructured) × OwnDomain o)
      × HasRoom d EmailView email_accounts "emailAccounts"
  Admitted (update_call r scope o) = ⊥
  Admitted (status_call r scope o) = ⊥
  Admitted (delete_call r scope name) = ⊥
  Admitted (get_namespace_call name) = ⊥
  Admitted (put_namespace_call n) = ⊥
  Admitted (create_zone_call zone servers) = ⊥
  Admitted (create_user_call user) = user ≡ mail_user (completed asked)
  Admitted (list_users_call search) = search ≡ trim_space asked.address
  Admitted (set_password_call user password) = password ≡ asked.password

  abbrev Keeping : {A : Type 0} → Effect d EmailView A → Type 0
  Keeping m = Keeps (Called Admitted) m

  known_user-Keeping :
      (created : Result AdminError String)
      → Keeping (known_user d u (trim_space asked.address) created)
  unfolding known_user find_user
  known_user-Keeping (ok id) = Keeps-pure id
  known_user-Keeping (err e) =
      Keeps-if _
        (Keeps-bind _ _ (Keeps-attempt _ (calling-Keeps d _ _ _ refl)) (λ users. Keeps-pure _))
        (Keeps-raise _)

  register_user-Keeping : Keeping (register_user d u (completed asked))
  unfolding register_user change_password completed
  register_user-Keeping =
      Keeps-if _
        (Keeps-bind _ _ (Keeps-attempt _ (calling-Keeps d _ _ _ refl)) (λ created.
          Keeps-bind _ _ (known_user-Keeping created)
            (λ id. Keeps-if _ (Keeps-pure _) (Keeps-on_error _ _ (calling-Keeps d _ _ _ refl)))))
        (Keeps-pure _)

  load_domain-Keeping : Keeping (load_domain d u claims (trim_space asked.domain))
  unfolding load_domain
  load_domain-Keeping =
      Keeps-bind _ _ (Keeps-on_error _ _ (calling-Keeps d _ _ _ tt))
        (λ o. Keeps-then _ _ (Keeps-fail_if _ _) (Keeps-pure o))

  load_domain-OwnDomain :
      (w : Panel d.State) (o : Unstructured)
      → (load_domain d u claims (trim_space asked.domain) w).0 ≡ ok o
      → OwnDomain o
  unfolding load_domain calling pure
  load_domain-OwnDomain w o h =
      let (o', got, rest) = bind_ok _ _ w o h in
      let known = on_error_ok (domain_error (trim_space asked.domain)) _ w o' got in
      let (mine, same) = unless_ok (not (owns claims o')) _ (pure o') _ o rest in
      subst OwnDomain (ok-injective same) ((w.state, known), not-false _ mine)

  check_email-IsAddress :
      (w : Panel d.State)
      → (check_email d u (completed asked) w).0 ≡ ok tt
      → is_email_address (trim_space asked.address) ≡ true
  unfolding check_email completed
  check_email-IsAddress w h =
      let (_, rest) = unless_ok _ _ _ w tt h in
      let (valid, _) = unless_ok _ _ _ w tt rest in not-false _ valid

  check_email-Keeping : Keeping (check_email d u (completed asked))
  unfolding check_email
  check_email-Keeping = Keeps-then _ _ (Keeps-fail_if _ _) (
      Keeps-then _ _ (Keeps-fail_if _ _) (
        Keeps-then _ _ (Keeps-fail_if _ _)
          (Keeps-then _ _ (Keeps-fail_if _ _) (Keeps-fail_if _ _))))

  create_email-Keeping : Keeping (create_email d u (some claims) (some asked))
  unfolding create_email completed
  create_email-Keeping = claims-Keeps d _ _ claims _ (
      decoded-Keeps d _ _ asked _ (
        Keeps-then_known _ _ check_email-Keeping (λ w0 t valid.
          Keeps-then _ _ register_user-Keeping (
            Keeps-then_known _ _ load_domain-Keeping (λ w1 domain own.
              Keeps-bind_known _ _ (check_quota-Keeps d _ _ _ _ (λ r s t. tt)) (λ w q quota.
                refuse_quota-Keeps d _ _ _ _ q _ (λ fits.
                  Keeps-bind _ _
                    (Keeps-on_error _ _ (
                      calling-Keeps d _ _ _ (
                        refl,
                        refl,
                        refl,
                        check_email-IsAddress w0 valid,
                        (domain, load_domain-OwnDomain w1 domain own),
                        check_quota-HasRoom d EmailView email_accounts "emailAccounts" w
                            (quota ∙ ap ok fits),
                      )))
                    (λ created. Keeps-pure _))))))))

-- What `CreateEmail` writes into the cluster: the requested account, completed and for the caller,
-- after its address was found good, its domain was read and is the caller's, and the first plan's
-- limit is not reached, as far as the lists could be read. Of Keycloak it asks the user for the
-- address, the search for the address, and the password of the request.
pub create_email-Admitted :
    (d : Dynamic) (u : Unicode) (claims : TokenClaims) (asked : CreateEmailRequest)
    (w : Panel d.State)
    → w.calls ≡ []
    → Called (Admitted d u claims asked) (create_email d u (some claims) (some asked) w).1
create_email-Admitted d u claims asked w fresh =
    (create_email-Keeping d u claims asked).at w (rw fresh tt)
