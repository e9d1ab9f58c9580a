-- ===== src/Middleware/Sample.antt =====
-- An identity provider that accepts one token, and a request that carries it.
use kubecp.Common.{ℕ, String, str_eq, none, some, [], ◌∷◌, if◌then◌else◌}
use kubecp.Http.{Request}
use kubecp.Middleware.Oidc.{Environment, RawClaims, Idp, AuthWorld}

abbrev pub raw : RawClaims
raw = record { subject = "7"; email = "root@x"; username = "root"; realm_roles = "admin" ∷ [] }

abbrev pub provider : Idp
provider = record {
  Remote = ℕ;
  Verifier = Unit {0};
  IdToken = String;
  discover = λ url issuer calls. (some tt, calls);
  verify = λ v token calls. (if str_eq token "good" then some token else none, calls);
  claims = λ token. some raw;
}

abbrev pub environment : Environment
environment = record {
  keycloak_issuer_url = "";
  keycloak_client_id = "panel";
  keycloak_url = "http://keycloak/";
  keycloak_realm = "hosting";
  panel_hostname = "";
}

abbrev pub headers : String → String
headers name =
    if str_eq name "Authorization"
    then "Bearer good"
    else if str_eq name "X-Impersonate-User"
    then "alice"
    else ""

abbrev pub request : {E : Type 0} → E → Request E
request endpoint = record {
  path = "/api/dns/zones";
  header = headers;
  query = λ name. "";
  claims = none;
  endpoint = endpoint;
}

-- A server that has not reached its provider yet.
abbrev pub waiting : {W : Type 0} → W → AuthWorld provider W
waiting w = record { ready = none; remote = 0; inner = w }
