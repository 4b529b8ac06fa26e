-- ===== src/Errors/Codes.antt =====
-- The error codes shared by every application, libs/models/src/error/error-codes-map.ts: the two
-- enums and the two tables.
use demo_t.Base.{ℕ, String, List, [], ◌∷◌}

pub data HttpStatus : Type 0 where
  bad_request : HttpStatus
  unauthorized : HttpStatus
  forbidden : HttpStatus
  not_found : HttpStatus
  conflict : HttpStatus
  too_many_requests : HttpStatus
  internal_server_error : HttpStatus
  bad_gateway : HttpStatus
  service_unavailable : HttpStatus

-- The enum's numbers.
abbrev pub number : HttpStatus → ℕ
number HttpStatus.bad_request = 400
number HttpStatus.unauthorized = 401
number HttpStatus.forbidden = 403
number HttpStatus.not_found = 404
number HttpStatus.conflict = 409
number HttpStatus.too_many_requests = 429
number HttpStatus.internal_server_error = 500
number HttpStatus.bad_gateway = 502
number HttpStatus.service_unavailable = 503

pub data ErrorCode : Type 0 where
  invalid_credentials : ErrorCode
  invalid_token : ErrorCode
  token_expired : ErrorCode
  token_not_found : ErrorCode
  refresh_token_invalid : ErrorCode
  refresh_token_not_found : ErrorCode
  authentication_failed : ErrorCode
  session_expired : ErrorCode
  token_payload_mismatch : ErrorCode
  unauthorized : ErrorCode
  forbidden : ErrorCode
  access_denied : ErrorCode
  permission_denied : ErrorCode
  insufficient_permissions : ErrorCode
  email_not_verified : ErrorCode
  email_verification_required : ErrorCode
  verification_token_invalid : ErrorCode
  verification_token_expired : ErrorCode
  unverified_account_exists : ErrorCode
  email_already_verified : ErrorCode
  not_found : ErrorCode
  user_not_found : ErrorCode
  resource_not_found : ErrorCode
  user_update_failed : ErrorCode
  user_not_active : ErrorCode
  user_no_longer_exists : ErrorCode
  invalid_user_id : ErrorCode
  already_exists : ErrorCode
  email_already_exists : ErrorCode
  user_already_exists : ErrorCode
  duplicate_entry : ErrorCode
  conflict : ErrorCode
  validation_failed : ErrorCode
  invalid_input : ErrorCode
  bad_request : ErrorCode
  missing_required_field : ErrorCode
  invalid_format : ErrorCode
  invalid_email : ErrorCode
  invalid_password : ErrorCode
  rate_limit_exceeded : ErrorCode
  too_many_requests : ErrorCode
  csrf_token_missing : ErrorCode
  csrf_token_invalid : ErrorCode
  csrf_validation_failed : ErrorCode
  internal_server_error : ErrorCode
  server_error : ErrorCode
  service_unavailable : ErrorCode
  database_error : ErrorCode
  external_service_error : ErrorCode

-- The enum's strings, which travel as exception messages.
abbrev pub value : ErrorCode → String
value ErrorCode.invalid_credentials = "INVALID_CREDENTIALS"
value ErrorCode.invalid_token = "INVALID_TOKEN"
value ErrorCode.token_expired = "TOKEN_EXPIRED"
value ErrorCode.token_not_found = "TOKEN_NOT_FOUND"
value ErrorCode.refresh_token_invalid = "REFRESH_TOKEN_INVALID"
value ErrorCode.refresh_token_not_found = "REFRESH_TOKEN_NOT_FOUND"
value ErrorCode.authentication_failed = "AUTHENTICATION_FAILED"
value ErrorCode.session_expired = "SESSION_EXPIRED"
value ErrorCode.token_payload_mismatch = "TOKEN_PAYLOAD_MISMATCH"
value ErrorCode.unauthorized = "UNAUTHORIZED"
value ErrorCode.forbidden = "FORBIDDEN"
value ErrorCode.access_denied = "ACCESS_DENIED"
value ErrorCode.permission_denied = "PERMISSION_DENIED"
value ErrorCode.insufficient_permissions = "INSUFFICIENT_PERMISSIONS"
value ErrorCode.email_not_verified = "EMAIL_NOT_VERIFIED"
value ErrorCode.email_verification_required = "EMAIL_VERIFICATION_REQUIRED"
value ErrorCode.verification_token_invalid = "VERIFICATION_TOKEN_INVALID"
value ErrorCode.verification_token_expired = "VERIFICATION_TOKEN_EXPIRED"
value ErrorCode.unverified_account_exists = "UNVERIFIED_ACCOUNT_EXISTS"
value ErrorCode.email_already_verified = "EMAIL_ALREADY_VERIFIED"
value ErrorCode.not_found = "NOT_FOUND"
value ErrorCode.user_not_found = "USER_NOT_FOUND"
value ErrorCode.resource_not_found = "RESOURCE_NOT_FOUND"
value ErrorCode.user_update_failed = "USER_UPDATE_FAILED"
value ErrorCode.user_not_active = "USER_NOT_ACTIVE"
value ErrorCode.user_no_longer_exists = "USER_NO_LONGER_EXISTS"
value ErrorCode.invalid_user_id = "INVALID_USER_ID"
value ErrorCode.already_exists = "ALREADY_EXISTS"
value ErrorCode.email_already_exists = "EMAIL_ALREADY_EXISTS"
value ErrorCode.user_already_exists = "USER_ALREADY_EXISTS"
value ErrorCode.duplicate_entry = "DUPLICATE_ENTRY"
value ErrorCode.conflict = "CONFLICT"
value ErrorCode.validation_failed = "VALIDATION_FAILED"
value ErrorCode.invalid_input = "INVALID_INPUT"
value ErrorCode.bad_request = "BAD_REQUEST"
value ErrorCode.missing_required_field = "MISSING_REQUIRED_FIELD"
value ErrorCode.invalid_format = "INVALID_FORMAT"
value ErrorCode.invalid_email = "INVALID_EMAIL"
value ErrorCode.invalid_password = "INVALID_PASSWORD"
value ErrorCode.rate_limit_exceeded = "RATE_LIMIT_EXCEEDED"
value ErrorCode.too_many_requests = "TOO_MANY_REQUESTS"
value ErrorCode.csrf_token_missing = "CSRF_TOKEN_MISSING"
value ErrorCode.csrf_token_invalid = "CSRF_TOKEN_INVALID"
value ErrorCode.csrf_validation_failed = "CSRF_VALIDATION_FAILED"
value ErrorCode.internal_server_error = "INTERNAL_SERVER_ERROR"
value ErrorCode.server_error = "SERVER_ERROR"
value ErrorCode.service_unavailable = "SERVICE_UNAVAILABLE"
value ErrorCode.database_error = "DATABASE_ERROR"
value ErrorCode.external_service_error = "EXTERNAL_SERVICE_ERROR"

-- `Object.values(ErrorCode)`, in declaration order.
abbrev pub values : List ErrorCode
values =
    ErrorCode.invalid_credentials ∷ ErrorCode.invalid_token ∷ ErrorCode.token_expired
    ∷ ErrorCode.token_not_found ∷ ErrorCode.refresh_token_invalid
    ∷ ErrorCode.refresh_token_not_found ∷ ErrorCode.authentication_failed
    ∷ ErrorCode.session_expired ∷ ErrorCode.token_payload_mismatch ∷ ErrorCode.unauthorized
    ∷ ErrorCode.forbidden ∷ ErrorCode.access_denied ∷ ErrorCode.permission_denied
    ∷ ErrorCode.insufficient_permissions ∷ ErrorCode.email_not_verified
    ∷ ErrorCode.email_verification_required ∷ ErrorCode.verification_token_invalid
    ∷ ErrorCode.verification_token_expired ∷ ErrorCode.unverified_account_exists
    ∷ ErrorCode.email_already_verified ∷ ErrorCode.not_found ∷ ErrorCode.user_not_found
    ∷ ErrorCode.resource_not_found ∷ ErrorCode.user_update_failed ∷ ErrorCode.user_not_active
    ∷ ErrorCode.user_no_longer_exists ∷ ErrorCode.invalid_user_id ∷ ErrorCode.already_exists
    ∷ ErrorCode.email_already_exists ∷ ErrorCode.user_already_exists ∷ ErrorCode.duplicate_entry
    ∷ ErrorCode.conflict ∷ ErrorCode.validation_failed ∷ ErrorCode.invalid_input
    ∷ ErrorCode.bad_request ∷ ErrorCode.missing_required_field ∷ ErrorCode.invalid_format
    ∷ ErrorCode.invalid_email ∷ ErrorCode.invalid_password ∷ ErrorCode.rate_limit_exceeded
    ∷ ErrorCode.too_many_requests ∷ ErrorCode.csrf_token_missing ∷ ErrorCode.csrf_token_invalid
    ∷ ErrorCode.csrf_validation_failed ∷ ErrorCode.internal_server_error ∷ ErrorCode.server_error
    ∷ ErrorCode.service_unavailable ∷ ErrorCode.database_error ∷ ErrorCode.external_service_error
    ∷ []
