-- ===== src/Api/MailDomains/Data.antt =====
-- The requests, responses and objects of email_domains.go.
use kubecp.Common.{Bool, List, Option, String, false, none, pos, some, ℤ}
use kubecp.Api.Crd.Values.{
  Fields, Values, as_bool, as_map, as_text, bool, entry, get, int_or_zero, no_fields, object,
  or_empty, put,
}
use kubecp.Api.Crd.Client.{Unstructured, spec_of}
use kubecp.Api.Crd.Values
use kubecp.Api.Websites.Objects.{sanitize_domain, label_or_empty}
use kubecp.Api.Websites.Specs.{user_object}

pub record CreateEmailDomainRequest : Type 0 where
  pub domain : String
  pub spam_filter : Bool
  pub catch_all : String

pub record EmailDomainResponse : Type 0 where
  pub id : String
  pub domain : String
  pub owner : String
  pub spam_filter : Bool
  pub catch_all : String
  pub dkim_secret_name : String
  pub account_count : ℤ
  pub phase : String
  pub created_at : String

pub data EmailDomainView : Type 0 where
  domain_view : EmailDomainResponse → EmailDomainView
  domains_view : List EmailDomainResponse → EmailDomainView
  spam_view : Bool → EmailDomainView
  rotating_view : EmailDomainView

unfoldable pub new_domain : CreateEmailDomainRequest → String → String → Unstructured
new_domain req domain username = user_object "EmailDomain" (sanitize_domain domain) username (
    entry "domain" (Values.text domain) (
      entry "owner" (Values.text username) (
        entry "spamFilter" (bool req.spam_filter)
          (entry "catchAll" (Values.text req.catch_all) no_fields))))

abbrev text_at : String → Option Fields → String
text_at key none = ""
text_at key (some m) = as_text (get key m)

-- `domain, _ := spec["domain"].(string)`
abbrev pub domain_name : Unstructured → String
domain_name o = text_at "domain" (spec_of o)

abbrev pub spam_filter_of : Option Fields → Bool
spam_filter_of none = false
spam_filter_of (some m) = as_bool (get "spamFilter" m)

abbrev owner_in : Unstructured → Option Fields → String
owner_in o none = label_or_empty o.labels "hosting.panel/user"
owner_in o (some m) = as_text (get "owner" m)

-- `unstructuredToEmailDomainResponse`
unfoldable pub domain_response : Unstructured → EmailDomainResponse
domain_response o = record {
  id = o.name;
  domain = domain_name o;
  owner = owner_in o (spec_of o);
  spam_filter = spam_filter_of (spec_of o);
  catch_all = text_at "catchAll" (spec_of o);
  dkim_secret_name = text_at "dkimSecretName" (as_map o.status);
  account_count = elim (as_map o.status) [
    | none ↦ pos 0
    | some m ↦ int_or_zero (get "accountCount" m)
  ];
  phase = text_at "phase" (as_map o.status);
  created_at = o.created;
}

unfoldable pub without_dkim : Unstructured → Unstructured
without_dkim o = record o {
  status = object (put "dkimSecretName" (Values.text "") (or_empty (as_map o.status)));
}
