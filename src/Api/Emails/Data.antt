-- ===== src/Api/Emails/Data.antt =====
-- The requests and responses of emails.go, and its checks of texts.
use kubecp.Common.Text.{replace_char, split, to_lower, trim_space}
use kubecp.Common.{
  Bool, List, Option, String, false, if◌then◌else◌, leb, not_positive, pos, true, ℕ, ℤ, ◌&&◌, ◌==◌,
  ◌||◌,
}
use kubecp.Api.Crd.Client.{Unicode, User}
use kubecp.Common.{[], ◌∷◌}
use Prim.Native.Char.{code}
use Prim.Native.String.{[], ◌∷◌, count}

pub record EmailForwarding : Type 0 where
  pub enabled : Bool
  pub addresses : List String
  pub keep_copy : Bool

pub record CreateEmailRequest : Type 0 where
  pub address : String
  pub domain : String
  pub password : String
  pub quota_mb : ℤ
  pub forwarding : Option EmailForwarding

pub record EmailStatusInfo : Type 0 where
  pub phase : String
  pub used_mb : ℤ

pub record EmailResponse : Type 0 where
  pub id : String
  pub name : String
  pub namespace : String
  pub address : String
  pub domain : String
  pub quota_mb : ℤ
  pub forwarding : Option EmailForwarding
  pub maildir_path : String
  pub status : EmailStatusInfo
  pub created_at : String

pub data EmailView : Type 0 where
  email_view : EmailResponse → EmailView
  emails_view : List EmailResponse → EmailView
  forwarding_view : EmailForwarding → EmailView

abbrev is_letter : ℕ → Bool
is_letter c = (leb b'a' c && leb c b'z') || (leb b'A' c && leb c b'Z')

-- `[a-zA-Z0-9.\-]`
abbrev is_domain_char : ℕ → Bool
is_domain_char c = is_letter c || (leb b'0' c && leb c b'9') || c == b'.' || c == b'-'

-- `[a-zA-Z0-9._%+\-]`
abbrev is_local_char : ℕ → Bool
is_local_char c = is_domain_char c || c == b'_' || c == b'%' || c == b'+'

unfoldable pub all_letters : String → Bool
all_letters [] = true
all_letters (c ∷ s) = is_letter (code c) && all_letters s

-- `[a-zA-Z0-9.\-]*\.[a-zA-Z]{2}`
unfoldable pub is_domain_rest : String → Bool
is_domain_rest [] = false
is_domain_rest (c ∷ s) =
    (code c == b'.' && all_letters s && leb 2 (count s))
    || (is_domain_char (code c) && is_domain_rest s)

abbrev is_mail_domain : String → Bool
is_mail_domain [] = false
is_mail_domain (c ∷ s) = is_domain_char (code c) && is_domain_rest s

-- `[a-zA-Z0-9._%+\-]*@` and a domain
unfoldable pub is_address_rest : String → Bool
is_address_rest [] = false
is_address_rest (c ∷ s) =
    (code c == b'@' && is_mail_domain s) || (is_local_char (code c) && is_address_rest s)

-- `emailPattern.MatchString`
unfoldable pub is_email_address : String → Bool
is_email_address [] = false
is_email_address (c ∷ s) = is_local_char (code c) && is_address_rest s

-- `emailToK8sName`
unfoldable pub email_to_k8s_name : Unicode → String → String
email_to_k8s_name u email =
    to_lower u.lower (replace_char b'.' "-" (replace_char b'@' "-at-" email))

abbrev first_part : List String → String
first_part [] = ""
first_part (s ∷ l) = s

-- The Keycloak user for a new address.
unfoldable pub mail_user : CreateEmailRequest → User
mail_user req = record {
  id = "";
  username = req.address;
  email = req.address;
  first_name = first_part (split b'@' req.address);
  last_name = "Mail";
  enabled = true;
  email_verified = true;
  attributes = ("email-account", "true" ∷ []) ∷ ("mail-domain", req.domain ∷ []) ∷ [];
}

-- The request with trimmed texts and the default of the quota.
unfoldable pub completed : CreateEmailRequest → CreateEmailRequest
completed req = record req {
  address = trim_space req.address;
  domain = trim_space req.domain;
  quota_mb = if not_positive req.quota_mb then pos 1024 else req.quota_mb;
}
