-- ===== src/Api/Emails/RoundTrip.antt =====
-- On a new e-mail account of emails.go, read back by the conversions.
use kubecp.Api.Websites.RoundTrip.{texts_lem}
use kubecp.Api.Websites.Specs.{has_texts}
use kubecp.Common.{
  List, String, [], arith, if◌then◌else◌, pos, some, str_eq, ◌&&◌, ◌∷◌, ◌≡◌, Option, none, refl, ap,
}
use kubecp.Api.Emails.Objects.{
  email_response, forwarding_fields, forwarding_in, new_email, put_addresses,
}
use kubecp.Api.Emails.Data.{CreateEmailRequest, EmailForwarding, email_to_k8s_name, EmailResponse}
use kubecp.Api.Crd.Values.{Fields, get, get-put, of_texts, slice}
use kubecp.Api.Crd.Owned.{hosting_namespace}
use kubecp.Api.Crd.Client.{Unicode}

put_addresses-get :
    (l : List String) (key : String) (m : Fields)
    → get key (put_addresses l m)
      ≡ (if str_eq "addresses" key && has_texts l then slice (of_texts l) else get key m)
put_addresses-get [] key m = ground arith
put_addresses-get (s ∷ l) key m =
    ground (arith, get-put "addresses" key (slice (of_texts (s ∷ l))) m)

-- A forwarding reads back as it was written.
forwarding-fields : (f : EmailForwarding) → forwarding_in (some (forwarding_fields f)) ≡ some f
unfolding forwarding_fields get
forwarding-fields f = simp put_addresses-get (simp texts_lem)

abbrev shown_with : Unicode → CreateEmailRequest → Option EmailForwarding → EmailResponse
shown_with u req f = record {
  id = email_to_k8s_name u req.address;
  name = email_to_k8s_name u req.address;
  namespace = hosting_namespace;
  address = req.address;
  domain = req.domain;
  quota_mb = req.quota_mb;
  forwarding = f;
  maildir_path = "";
  status = record { phase = ""; used_mb = pos 0 };
  created_at = "";
}

-- What the API shows of an account that was just asked for.
abbrev pub shown : Unicode → CreateEmailRequest → EmailResponse
shown u req = shown_with u req req.forwarding

email_response_lem :
    (u : Unicode) (req : CreateEmailRequest) (username : String) (f : Option EmailForwarding)
    → email_response (new_email u (record req { forwarding = f }) username) ≡ shown_with u req f
unfolding email_response new_email get
email_response_lem u req username none = refl
email_response_lem u req username (some f) =
    simp get-put (ap (shown_with u req) (forwarding-fields f))

-- A new account reads back with the address, the domain, the quota and the forwarding of its request.
email_response-new_email :
    (u : Unicode) (req : CreateEmailRequest) (username : String)
    → email_response (new_email u req username) ≡ shown u req
email_response-new_email u req username = email_response_lem u req username req.forwarding
