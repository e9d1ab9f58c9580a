-- ===== src/Powerdns/Data.antt =====
-- The data of panel-core/internal/powerdns/client.go, and the network as a parameter.
use kubecp.Common.{ℕ, ℤ, String, ◌<>◌, Bool, Option, List}
use kubecp.Common.Text.{show_nat}
use kubecp.Common.Exec.{Result}

-- One value of a record set.
pub record Record : Type 0 where
  pub content : String
  pub disabled : Bool

pub record Comment : Type 0 where
  pub content : String
  pub account : String
  pub modified_at : ℤ

-- `RRSet`: the records of one name and type
pub record RrSet : Type 0 where
  pub name : String
  pub type : String
  pub ttl : ℤ
  pub change_type : String
  pub records : List Record
  pub comments : List Comment

pub record Zone : Type 0 where
  pub id : String
  pub name : String
  pub kind : String
  pub dnssec : Bool
  pub serial : ℤ
  pub notified_serial : ℤ
  pub masters : List String
  pub account : String
  pub rrsets : List RrSet

pub record ZonePatch : Type 0 where
  pub rrsets : List RrSet

pub record Client : Type 0 where
  pub base_url : String
  pub api_key : String
  pub server_id : String

pub data Method : Type 0 where
  get post put patch delete : Method

-- What `doRequest` marshals: these values always marshal, so the text is left out.
pub data Payload : Type 0 where
  zone_body : Zone → Payload
  patch_body : ZonePatch → Payload
  metadata_body : String → List String → Payload

pub record ApiRequest : Type 0 where
  pub method : Method
  pub url : String
  pub api_key : String
  pub payload : Option Payload

pub record Reply : Type 0 where
  pub status_code : ℕ
  pub status : String
  pub body : String

-- `APIError`
pub record ApiError : Type 0 where
  pub status_code : ℕ
  pub message : String

pub data ClientError : Type 0 where
  create_request : String → ClientError
  transport : String → ClientError
  decode : String → String → ClientError
  api : ApiError → ClientError

-- `err.Error()`
unfoldable pub error_text : ClientError → String
error_text (create_request e) = "create request: " <> e
error_text (transport e) = e
error_text (decode what e) = what <> ": " <> e
error_text (api e) = "powerdns: " <> show_nat e.status_code <> " " <> e.message

-- `http.NewRequest`'s check of the URL, the HTTP client with the server behind it, and
-- `json.Decoder` at the two types that the client reads.
pub record Network : Type 1 where
  pub Remote : Type 0
  pub url_error : Method → String → Option String
  pub send : ApiRequest → Remote → Result String Reply × Remote
  pub decode_zone : String → Result String Zone
  pub decode_zones : String → Result String (List Zone)

-- The server's state, and the requests that were sent, the first in front.
pub record World (Remote : Type 0) : Type 0 where
  pub remote : Remote
  pub sent : List ApiRequest
