-- ===== src/Api/MailDomains/Cascade.antt =====
-- On the deletion of an e-mail domain in email_domains.go, and on its creation.
use mathlib.Core.List.{append_assoc}
use kubecp.Http.{TokenClaims}
use kubecp.Common.Text.{is_empty}
use kubecp.Common.Exec.{
  attempt, fail_if, ignore, ok, on_error, pure, raise, ◌>>=◌, ◌>>◌, Result, convert, err, resume,
}
use kubecp.Common.{
  List, String, [], false, map, some, true, ◌++◌, ◌∷◌, ◌≡◌, ap, append_nil, refl, ◌∙◌,
}
use kubecp.Api.MailDomains.Handlers.{
  accounts_of, delete_accounts, delete_accounts_of, delete_email_domain, delete_listed,
}
use kubecp.Api.MailDomains.Data.{domain_name}
use kubecp.Api.Crd.Owned.{hosting_namespace, load_for, load_owned, owns, require_claims, internal}
use kubecp.Api.Crd.Client.{
  Call, Dynamic, Panel, Unstructured, calling, delete_call, email_accounts, email_domains, get_call,
  list_call,
}

abbrev pub deletion : Unstructured → Call
deletion account = delete_call email_accounts (some hosting_namespace) account.name

module _ (d : Dynamic) where
  last_of :
      {E F A B : Type 0} (g : E → F) (b : B) (p : Result E A × d.State) (c : List Call)
      → (resume {W = Panel d.State}
          (λ a. pure b)
          (convert g (p.0, record { state = p.1; calls = c }))).1.calls
        ≡ c
  unfolding pure
  last_of g b (ok a, s) c = refl
  last_of g b (err e, s) c = refl

  -- The loop runs to its end and leaves one call for each account, in the order of the list.
  delete_accounts-Runs :
      (l : List Unstructured) (w : Panel d.State)
      → (s : d.State) × (delete_accounts d l w
          ≡ (ok tt, record { state = s; calls = w.calls ++ map deletion l }))
  unfolding delete_accounts calling ignore pure ◌>>=◌ ◌>>◌
  delete_accounts-Runs [] w = (w.state, rw (append_nil w.calls) refl)
  delete_accounts-Runs (account ∷ l) w =
      let here = d.delete email_accounts (some hosting_namespace) account.name w.state in
      let (s, e) =
        delete_accounts-Runs l
          (record { state = here.1; calls = w.calls ++ deletion account ∷ [] }) in
      (s, e ∙ ap (λ c. (ok tt, record { state = s; calls = c })) (append_assoc w.calls _ _))

  -- The deletion of a domain that the caller owns reads the domain, lists its accounts, asks for the
  -- deletion of every listed account, in the order of the list and whether or not one fails, and
  -- only then for that of the domain.
  pub delete_email_domain-Cascades :
      (claims : TokenClaims) (id : String) (s s1 s2 : d.State) (o : Unstructured)
      (accounts : List Unstructured)
      → d.get email_domains (some hosting_namespace) id s ≡ (ok o, s1)
      → owns claims o ≡ true
      → is_empty (domain_name o) ≡ false
      → d.list email_accounts (some hosting_namespace) (accounts_of (domain_name o)) s1
        ≡ (ok accounts, s2)
      → (delete_email_domain d (some claims) id (record { state = s; calls = [] })).1.calls
        ≡ get_call email_domains (some hosting_namespace) id
            ∷ list_call email_accounts (some hosting_namespace) (accounts_of (domain_name o))
            ∷ map deletion accounts
          ++ delete_call email_domains (some hosting_namespace) id ∷ []
  unfolding delete_email_domain load_for load_owned require_claims delete_accounts_of delete_listed
      calling attempt on_error fail_if pure raise ◌>>=◌ ◌>>◌
  delete_email_domain-Cascades claims id s s1 s2 o accounts got own named listed =
      let reads =
        list_call email_accounts (some hosting_namespace) (accounts_of (domain_name o)) ∷ [] in
      let (s3, e) = delete_accounts-Runs accounts (record {
        state = s2;
        calls = get_call email_domains (some hosting_namespace) id ∷ reads;
      }) in
      rw (got, own, named, listed, e)
        (last_of (internal "Failed to delete email domain: ") _
          (d.delete email_domains (some hosting_namespace) id s3) _)
