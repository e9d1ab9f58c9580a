-- ===== src/Lib.antt =====
-- The kubecp hosting panel: a REST API (panel-core) in front of PowerDNS, Keycloak and Kubernetes,
-- and an operator (hosting-operator) that brings a cluster to the state that its resources ask for.
--
-- The panel. A request to the API passes the OIDC middleware, which verifies a bearer token and
-- puts the caller's claims on the request, and the role check of its route, and reaches a handler.
-- The DNS handlers read a zone from PowerDNS through its client, check that the caller may reach
-- it, check the request, and patch the zone. The file manager finds the pod of a website that the
-- caller owns and runs commands in it. The handlers of websites, databases, e-mail accounts and hosting
-- plans keep what they know in custom resources of the cluster: below an object they read it, check
-- that its label names the caller, and write it back; a creation checks the request, the quota of the
-- first plan and, for a website, that none of its domains is in use. The operator acts on what they
-- write: the websites of the one are the websites of the other.
--
-- The operator. A pass over a website handles its deletion or its suspension, or else runs the
-- steps that bring the user's volume, the volumes of the SFTP server, the deployment, the service,
-- the proxy of the primary domain, the DNS zone, the proxies of the aliases and the self-signed
-- certificates to the state asked for, and records in the status how it ended. The file manager
-- looks for the pods of such a deployment.
--
-- File by file, with paths from the repository's root:
--   Http            panel-core/internal/api/errors.go and writeJSON of api/users.go; requests, claims
--                   and the two ways in which a handler ends (a response or a panic).
--   Middleware/Rbac panel-core/internal/middleware/rbac.go: RequireRole, RequireAdmin, HasRole,
--                   RequireOwnership, IsOwner, IsOwnerByLabel, in snake case.
--   Middleware/Oidc panel-core/internal/middleware/auth.go: OIDCAuth is `oidc_auth`, its closure
--                   variable oidcReady is the field `ready` of `AuthWorld`, getOIDC is `get_oidc`.
--   Powerdns        panel-core/internal/powerdns/client.go: one definition for each method.
--   Api/Dns         panel-core/internal/api/dns.go: Names, Content, Access and Defaults hold the
--                   helpers, Handlers the ten handlers (Load is the fetch and the access check that
--                   eight of them begin with), Handlers/Routes the routes with the guards of
--                   api/router.go.
--   Operator        hosting-operator/internal/controller: Volumes is uservolume.go, Users and Sftp are
--                   sftp_volumes.go, Website is website_controller.go: Desired holds the objects that it
--                   asks for, Steps and Dns the reconcile methods, Status the ends of a pass, Reconcile
--                   the pass. Data has the resource types, Kube the services and the record of writes.
--   Api/Files       panel-core/internal/api/filemanager.go: Paths is sanitizePath, Listing parseLsOutput,
--                   Pods the lookup of a pod and the commands in it, Handlers the ten handlers.
--   Api/Import      panel-core/internal/api/backup_import.go: sanitizeName.
--   Api/Crd         what the handlers of custom resources share: Values is decoded JSON, Client the
--                   dynamic client with the resources of api/crd_client.go, Owned the claims, the body
--                   and the object with the check of its owner, Quota the comparison with the first
--                   hosting plan, all with the lines of api/websites.go that the others repeat.
--   Api/Websites    panel-core/internal/api/websites.go: Objects and Specs are the conversions, Checks
--                   the domains and the UIDs, Handlers the handlers, Routes those below a website.
--   Api/Databases   panel-core/internal/api/databases.go: Data, and the handlers.
--   Api/Emails      panel-core/internal/api/emails.go: Create is CreateEmail, Handlers the others.
--   Api/MailDomains panel-core/internal/api/email_domains.go: Data, and the handlers.
--   Api/Plans       panel-core/internal/api/hostingplans.go: Slug is the name made of a display name,
--                   Quotas the objects of a namespace, Handlers the handlers.
--   Common          shared names, list and text functions (Go's `strings`), and `Exec`, the effects: a
--                   call changes a world and returns a value or fails, and what was done before a
--                   failure stays done.
-- A file X/Laws.antt proves what X.antt does; the proofs about the DNS handlers are Isolation, Tenants,
-- Guarded, Merging, Listing and Replacing under Api/Dns/Handlers; under the other parts of Api,
-- Tenants is about the handlers below an object, Creation and Assignment about what is written, and
-- RoundTrip about what is read back. Tests hold runs and witnesses.
--
-- Parameters stand for what is outside the repository: `Network` (the HTTP client, the PowerDNS
-- server behind it and the JSON decoder), `Idp` (go-oidc and the identity provider), `Platform`
-- (net.ParseIP, the verb %q, and ToUpper beyond ASCII), `Kube` (the Kubernetes client with the
-- cluster behind it, PowerDNS over HTTP, certificates, quantities, and the helpers for finalizers,
-- conditions and owner references), `Pods` (the Kubernetes clients and the exec stream of a pod),
-- `Dynamic` (the dynamic client and the clientset with the cluster behind them) and `Unicode`
-- (ToLower and case folding beyond ASCII, and the verb %q). `Dynamic` also holds, as interfaces
-- between components, the creator of zones that api/router.go puts over the PowerDNS client, and
-- the three calls of panel-core/internal/keycloak that CreateEmail makes. A record of functions
-- stands for each, and no law of them is assumed. `World` keeps the state of the server and the
-- list of the requests sent, `Panel` the state of the cluster and the list of the calls made, in
-- their order. A text is a list of code points, which is Go's string where that is valid UTF-8.
-- Every loop is structural recursion, but for `show_digits`: its fuel is the number plus one, more
-- than the number has digits. A decoded body is an Option, none where json.Decoder fails. Of a
-- decoded number that is a float64 only its conversion to int64 is kept, and of a creation time the
-- text that is shown.
--
-- Not modelled: logging, headers of responses, TLS settings, timeouts and cancellation, the Keycloak
-- client behind its interface, hashEmailPassword, which nothing calls, and the other handlers and
-- reconcilers of the repository.
pub mod Common
pub mod Http
pub mod Middleware
pub mod Powerdns
pub mod Api
pub mod Operator
