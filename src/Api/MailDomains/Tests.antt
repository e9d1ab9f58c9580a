-- ===== src/Api/MailDomains/Tests.antt =====
-- The handlers of email_domains.go at concrete requests.
use kubecp.Middleware.Rbac.{has_role, is_owner_by_label}
use kubecp.Common.Text.{is_empty}
use kubecp.Common.Exec.{ok}
use kubecp.Common.{[], false, refl, some, suc, true, ◌∷◌, ◌≡◌}
use kubecp.Api.MailDomains.Tenants.{MayDomain, serve_domain-Owned}
use kubecp.Api.MailDomains.Handlers.{accounts_of, delete_email_domain, removes, serve_domain}
use kubecp.Api.MailDomains.Data.{domain_name}
use kubecp.Api.MailDomains.Cascade.{delete_email_domain-Cascades}
use kubecp.Api.Crd.Sample.{alice, cluster, database, idle}
use kubecp.Api.Crd.Owned.Laws.{Called}
use kubecp.Api.Crd.Owned.{owns}
use kubecp.Api.Crd.Client.{
  Dynamic, Unstructured, delete_call, email_accounts, email_domains, get_call, list_call,
  lookup_label,
}
use kubecp.Api.Crd.Values
use kubecp.Api.Crd.Values.{entry, no_fields, object, get, Values}

abbrev mail_domain : Unstructured
mail_domain = record database {
  kind = "EmailDomain";
  name = "blog-org";
  spec = object (entry "domain" (Values.text "blog.org") no_fields);
}

-- A cluster that lists two accounts.
abbrev mail_cluster : Dynamic
mail_cluster = record cluster {
  get = λ r scope name n. (ok mail_domain, suc n);
  list = λ r scope selector n.
      (ok (record database { name = "info" } ∷ record database { name = "root" } ∷ []), suc n);
}

serve_domain-Owned_example :
    Called
      (MayDomain mail_cluster (some alice) "blog-org")
      (serve_domain mail_cluster (some alice) "blog-org" removes idle).1
serve_domain-Owned_example =
    serve_domain-Owned mail_cluster (some alice) "blog-org" removes idle refl

alice-owns : owns alice mail_domain ≡ true
unfolding is_owner_by_label has_role lookup_label
alice-owns = refl

named : is_empty (domain_name mail_domain) ≡ false
unfolding get
named = refl

delete_email_domain-Cascades_example :
    (delete_email_domain mail_cluster (some alice) "blog-org" idle).1.calls
    ≡ get_call email_domains (some "hosting-system") "blog-org"
      ∷ list_call email_accounts (some "hosting-system") (accounts_of (domain_name mail_domain))
      ∷ delete_call email_accounts (some "hosting-system") "info"
      ∷ delete_call email_accounts (some "hosting-system") "root"
      ∷ delete_call email_domains (some "hosting-system") "blog-org"
      ∷ []
delete_email_domain-Cascades_example =
    delete_email_domain-Cascades mail_cluster alice "blog-org" 0 1 2 mail_domain
      (record database { name = "info" } ∷ record database { name = "root" } ∷ []) refl alice-owns
      named refl
