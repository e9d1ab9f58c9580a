-- ===== src/Api/Emails/Objects.antt =====
-- E-mail accounts as unstructured objects: the conversions of emails.go.
use kubecp.Common.{List, Option, String, [], if◌then◌else◌, none, pos, some, str_eq, ℤ, ◌∷◌}
use kubecp.Api.Emails.Data.{CreateEmailRequest, EmailForwarding, EmailResponse, email_to_k8s_name}
use kubecp.Api.Crd.Values.{
  Fields, Values, as_bool, as_map, as_slice, as_text, bool, entry, get, int64, int_or_zero,
  no_fields, object, of_texts, put, slice, texts_of,
}
use kubecp.Api.Crd.Owned.{hosting_namespace}
use kubecp.Api.Crd.Client.{Unicode, Unstructured, spec_of}
use kubecp.Api.Crd.Values

abbrev pub put_addresses : List String → Fields → Fields
put_addresses [] m = m
put_addresses (s ∷ l) m = put "addresses" (slice (of_texts (s ∷ l))) m

-- The map `fwd`
unfoldable pub forwarding_fields : EmailForwarding → Fields
forwarding_fields f =
    put_addresses f.addresses
      (entry "enabled" (bool f.enabled) (entry "keepCopy" (bool f.keep_copy) no_fields))

abbrev pub put_forwarding : Option EmailForwarding → Fields → Fields
put_forwarding none m = m
put_forwarding (some f) m = put "forwarding" (object (forwarding_fields f)) m

-- `emailRequestToUnstructured`, whose caller gives "" for the hash
unfoldable pub new_email : Unicode → CreateEmailRequest → String → Unstructured
new_email u req username = record {
  api_version = "hosting.hosting.panel/v1alpha1";
  kind = "EmailAccount";
  name = email_to_k8s_name u req.address;
  namespace = hosting_namespace;
  labels =
      some (("hosting.panel/user", username) ∷ ("hosting.panel/email-domain", req.domain) ∷ []);
  annotations = none;
  created = "";
  resource_version = "";
  spec = object (
      put_forwarding req.forwarding (
        entry "address" (Values.text req.address) (
          entry "domain" (Values.text req.domain) (
            entry "quotaMB" (int64 req.quota_mb)
              (entry "passwordHash" (Values.text "") no_fields)))));
  status = Values.nil;
}

abbrev text_at : String → Option Fields → String
text_at key none = ""
text_at key (some m) = as_text (get key m)

abbrev int_at : String → Option Fields → ℤ
int_at key none = pos 0
int_at key (some m) = int_or_zero (get key m)

abbrev pub forwarding_in : Option Fields → Option EmailForwarding
forwarding_in none = none
forwarding_in (some m) = some (record {
  enabled = as_bool (get "enabled" m);
  addresses = texts_of (as_slice (get "addresses" m));
  keep_copy = as_bool (get "keepCopy" m);
})

abbrev pub forwarding_of : Option Fields → Option EmailForwarding
forwarding_of none = none
forwarding_of (some spec) = forwarding_in (as_map (get "forwarding" spec))

-- `unstructuredToEmailResponse`
unfoldable pub email_response : Unstructured → EmailResponse
email_response o = record {
  id = o.name;
  name = o.name;
  namespace = o.namespace;
  address = text_at "address" (spec_of o);
  domain = text_at "domain" (spec_of o);
  quota_mb = int_at "quotaMB" (spec_of o);
  forwarding = forwarding_of (spec_of o);
  maildir_path = text_at "maildirPath" (as_map o.status);
  status = record {
    phase = text_at "phase" (as_map o.status);
    used_mb = int_at "usedMB" (as_map o.status);
  };
  created_at = o.created;
}

-- `delete(m, key)`
unfoldable pub remove : String → Fields → Fields
remove key no_fields = no_fields
remove key (entry k v m) = let rest = remove key m in if str_eq k key then rest else entry k v rest

-- `obj.Object["spec"] = spec`, where a nil map stays one
unfoldable pub without_forwarding : Unstructured → Unstructured
without_forwarding o = record o {
  spec = elim (spec_of o) [ none ↦ Values.nil | some m ↦ object (remove "forwarding" m) ];
}
