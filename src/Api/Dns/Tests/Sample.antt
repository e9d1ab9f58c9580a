-- ===== src/Api/Dns/Tests/Sample.antt =====
-- A server that has one zone and accepts every call, and two callers.
use kubecp.Common.{
  ℕ, suc, String, str_eq, true, false, none, some, [], ◌∷◌, pos, negsuc, if◌then◌else◌,
}
use kubecp.Common.Exec.{ok}
use kubecp.Http.{TokenClaims}
use kubecp.Powerdns.{Network, World, Client, Zone, RrSet}
use kubecp.Api.Dns.Data.{Platform, v4, v6, Settings, RecordRequest}

abbrev pub addresses : RrSet
addresses = record {
  name = "www.example.com.";
  type = "A";
  ttl = pos 300;
  change_type = "";
  records =
      record { content = "10.0.0.1"; disabled = false }
      ∷ record { content = "10.0.0.9"; disabled = true }
      ∷ [];
  comments = [];
}

abbrev pub zone_of : String → Zone
zone_of account = record {
  id = "example.com.";
  name = "example.com.";
  kind = "Native";
  dnssec = false;
  serial = pos 1;
  notified_serial = pos 0;
  masters = [];
  account = account;
  rrsets = addresses ∷ [];
}

-- The body of a reply is the account of the zone. `Remote` counts the calls.
abbrev pub server : String → Network
server account = record {
  Remote = ℕ;
  url_error = λ m url. none;
  send = λ req calls.
      (ok (record { status_code = 200; status = "200 OK"; body = account }), suc calls);
  decode_zone = λ body. ok (zone_of body);
  decode_zones = λ body. ok (zone_of body ∷ []);
}

abbrev pub fresh : World ℕ
fresh = record { remote = 0; sent = [] }

abbrev pub client : Client
client = record { base_url = "http://pdns"; api_key = "k"; server_id = "localhost" }

abbrev pub alice : TokenClaims
alice = record { subject = "1"; email = "a@x"; username = "alice"; roles = "user" ∷ [] }

abbrev pub mallory : TokenClaims
mallory = record { subject = "2"; email = "m@x"; username = "mallory"; roles = "user" ∷ [] }

-- Only texts without a colon are given here, and they are IPv4 addresses.
abbrev pub platform : Platform
platform = record {
  upper = λ c. c;
  parse_ip = λ s. if str_eq s "::1" then some v6 else if str_eq s "10.0.0.2" then some v4 else none;
  quote = λ s. s;
}

abbrev pub new_address : RecordRequest
new_address = record { name = "www"; type = "a"; ttl = negsuc 0; content = "10.0.0.2" }

abbrev pub settings : Settings
settings = record { external_ip = "10.0.0.1"; mail_host = "" }
