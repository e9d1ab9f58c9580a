-- ===== src/Api/Emails/Keycloak.antt =====
-- On `CreateEmail` of emails.go for an address that Keycloak knows.
use kubecp.Common.{[]}
use kubecp.Api.Crd.Client.{Dynamic, Panel}

abbrev pub fresh : (d : Dynamic) → d.State → Panel d.State
fresh d s = record { state = s; calls = [] }
