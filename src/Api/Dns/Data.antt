-- ===== src/Api/Dns/Data.antt =====
-- The requests and responses of dns.go, the handler's configuration, and what it takes from Go's
-- standard library.
use kubecp.Common.{ℤ, String, Char, Option, List}

-- `DNSHandler`, beside its client
pub record Settings : Type 0 where
  pub external_ip : String
  pub mail_host : String

pub record CreateZoneRequest : Type 0 where
  pub name : String
  pub kind : String

pub record ZoneResponse : Type 0 where
  pub id : String
  pub name : String
  pub kind : String
  pub serial : ℤ

pub record RecordRequest : Type 0 where
  pub name : String
  pub type : String
  pub ttl : ℤ
  pub content : String

pub record RecordResponse : Type 0 where
  pub name : String
  pub type : String
  pub ttl : ℤ
  pub content : String

pub record SecondaryConfigRequest : Type 0 where
  pub masters : List String
  pub allow_axfr : List String
  pub notify_targets : List String

pub record SecondaryConfigResponse : Type 0 where
  pub kind : String
  pub masters : List String
  pub allow_axfr : List String
  pub notify_targets : List String

-- What a response carries as JSON.
pub data View : Type 0 where
  zone_view : ZoneResponse → View
  zones_view : List ZoneResponse → View
  record_view : RecordResponse → View
  records_view : List RecordResponse → View
  secondary_view : SecondaryConfigResponse → View

pub data IpFamily : Type 0 where
  v4 v6 : IpFamily

-- `unicode.ToUpper` on characters that are not ASCII, `net.ParseIP` with `To4` as the family, and
-- the verb %q of `fmt`.
pub record Platform : Type 0 where
  pub upper : Char → Char
  pub parse_ip : String → Option IpFamily
  pub quote : String → String
