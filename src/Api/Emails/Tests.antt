-- ===== src/Api/Emails/Tests.antt =====
-- The handlers of emails.go at concrete requests.
use kubecp.Common.{[], false, pos, refl, some, true, ◌∷◌}
use kubecp.Api.Emails.Tenants.{serve_email-Owned}
use kubecp.Api.Emails.Handlers.{removes_forwarding, serve_email}
use kubecp.Api.Emails.Create.{create_email}
use kubecp.Api.Emails.Data.{CreateEmailRequest}
use kubecp.Api.Emails.Creation.{Admitted, create_email-Admitted}
use kubecp.Api.Crd.Sample.{alice, ascii, cluster, idle}
use kubecp.Api.Crd.Owned.Laws.{Called, May}
use kubecp.Api.Crd.Client.{AdminError, email_accounts}

abbrev info : CreateEmailRequest
info = record {
  address = " root@blog.org";
  domain = "blog.org ";
  password = "correct horse";
  quota_mb = pos 0;
  forwarding = some (record { enabled = true; addresses = "a@b.org" ∷ []; keep_copy = false });
}

serve_email-Owned_example :
    Called
      (May cluster email_accounts (some alice) "root-at-blog-org")
      (serve_email cluster ascii (some alice) "root-at-blog-org" removes_forwarding idle).1
serve_email-Owned_example =
    serve_email-Owned cluster ascii (some alice) "root-at-blog-org" removes_forwarding idle refl

create_email-Admitted_example :
    Called
      (Admitted cluster ascii alice info)
      (create_email cluster ascii (some alice) (some info) idle).1
create_email-Admitted_example = create_email-Admitted cluster ascii alice info idle refl

abbrev taken : AdminError
taken = record { status = some 409; text = "exists" }
