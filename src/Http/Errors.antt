-- ===== src/Http/Errors.antt =====
-- panel-core/internal/api/errors.go: the structured error responses.
use kubecp.Common.{ℕ, ℤ, String, Option, none, List}

-- `type ErrorCode string`
abbrev pub ErrorCode : Type 0
ErrorCode = String

abbrev pub bad_request : ErrorCode
bad_request = "BAD_REQUEST"

abbrev pub unauthorized : ErrorCode
unauthorized = "UNAUTHORIZED"

abbrev pub forbidden : ErrorCode
forbidden = "FORBIDDEN"

abbrev pub not_found : ErrorCode
not_found = "NOT_FOUND"

abbrev pub conflict : ErrorCode
conflict = "CONFLICT"

abbrev pub quota_exceeded : ErrorCode
quota_exceeded = "QUOTA_EXCEEDED"

abbrev pub validation_failed : ErrorCode
validation_failed = "VALIDATION_FAILED"

abbrev pub internal_error : ErrorCode
internal_error = "INTERNAL_ERROR"

abbrev pub service_unavailable : ErrorCode
service_unavailable = "SERVICE_UNAVAILABLE"

-- A value of a `details` map.
pub data Detail : Type 0 where
  text : String → Detail
  number : ℤ → Detail
  text_list : List String → Detail

pub record ErrorDetail : Type 0 where
  pub code : ErrorCode
  pub message : String
  pub details : Option (List (String × Detail))

-- What a handler wrote: nothing, an error, or a value as JSON.
pub data Body (P : Type 0) : Type 0 where
  no_body : Body P
  failure : ErrorDetail → Body P
  json : P → Body P

pub record Response (P : Type 0) : Type 0 where
  pub status : ℕ
  pub body : Body P

module _ {P : Type 0} where
  abbrev pub write_error : ℕ → ErrorCode → String → Option (List (String × Detail)) → Response P
  write_error s c m d = record {
    status = s;
    body = failure (record { code = c; message = m; details = d });
  }

  abbrev pub write_bad_request : String → Option (List (String × Detail)) → Response P
  write_bad_request m d = write_error 400 bad_request m d

  abbrev pub write_unauthorized : String → Response P
  write_unauthorized m = write_error 401 unauthorized m none

  abbrev pub write_forbidden : String → Response P
  write_forbidden m = write_error 403 forbidden m none

  abbrev pub write_not_found : String → Response P
  write_not_found m = write_error 404 not_found m none

  abbrev pub write_conflict : String → Option (List (String × Detail)) → Response P
  write_conflict m d = write_error 409 conflict m d

  abbrev pub write_quota_exceeded : String → Option (List (String × Detail)) → Response P
  write_quota_exceeded m d = write_error 422 quota_exceeded m d

  abbrev pub write_validation_failed : String → Option (List (String × Detail)) → Response P
  write_validation_failed m d = write_error 422 validation_failed m d

  abbrev pub write_internal_error : String → Response P
  write_internal_error m = write_error 500 internal_error m none

  abbrev pub write_service_unavailable : String → Response P
  write_service_unavailable m = write_error 503 service_unavailable m none

  -- `writeJSON`
  abbrev pub write_json : ℕ → P → Response P
  write_json s v = record { status = s; body = json v }
