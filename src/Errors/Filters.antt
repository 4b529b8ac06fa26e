-- ===== src/Errors/Filters.antt =====
-- The exception filters: libs/utils-nest/src/common/filters/http-exception.filter.ts, its extension
-- in apps/server-nest/src/app/common/filters/http-exception.filter.ts, and
-- apps/auth-service/src/app/common/filters/prisma-exception.filter.ts. Logging is left out.
pub mod Answers
pub mod Legacy
use mathlib.Core.Option
use demo_t.Base.{
  ℕ, String, Option, none, some, List, [], ◌∷◌, ◌==◌, ◌===◌, codes, to_lower_case, includes, find,
  any, if◌then◌else◌,
}
use demo_t.Errors.Codes.{HttpStatus, ErrorCode, value, values, number}
use demo_t.Errors.Tables.{status_of, message_of}
use demo_t.Errors.Exceptions.{Exception, http, named, database, plain, unknown, http_error}

pub record ErrorResponse : Type 0 where
  pub status_code : ℕ
  pub message : String
  pub error_code : Option ErrorCode
  pub timestamp : ℕ

-- `getErrorCodeFromMessage`.
unfoldable pub get_error_code_from_message : String → Option ErrorCode
get_error_code_from_message message = find (λ code. value code === message) values

-- The branch of `getErrorResponse` for a NestJS exception.
http_response : ℕ → ℕ → String → Option ErrorCode → ErrorResponse
http_response now status message none = record {
  status_code = status;
  message = message;
  error_code = none;
  timestamp = now;
}
http_response now status message (some code) = record {
  status_code = status;
  message = message_of code;
  error_code = some code;
  timestamp = now;
}

-- The branch of `getErrorResponse` for any other `Error`.
plain_response : ℕ → Option ErrorCode → ErrorResponse
plain_response now none = record {
  status_code = number HttpStatus.internal_server_error;
  message = "Internal server error";
  error_code = none;
  timestamp = now;
}
plain_response now (some code) = record {
  status_code = number (status_of code);
  message =
      if number (status_of code) == number HttpStatus.internal_server_error
      then "Internal server error"
      else message_of code;
  error_code = some code;
  timestamp = now;
}

-- `getErrorResponse`.
unfoldable pub get_error_response : ℕ → Exception → ErrorResponse
unfolding http_response plain_response get_error_code_from_message status_of message_of
get_error_response now (http status message) =
    http_response now status message (get_error_code_from_message message)
get_error_response now (named name message) =
    plain_response now (get_error_code_from_message message)
get_error_response now (database code message) =
    plain_response now (get_error_code_from_message message)
get_error_response now (plain message) = plain_response now (get_error_code_from_message message)
get_error_response now unknown = record {
  status_code = number HttpStatus.internal_server_error;
  message = "Internal server error";
  error_code = some ErrorCode.internal_server_error;
  timestamp = now;
}

-- The tests of `inferErrorCodeFromMessage` in their order: the first rule with a part that the
-- message includes gives the code.
abbrev pub rules : List (List String × ErrorCode)
rules =
    ("invalid credentials" ∷ "invalid email or password" ∷ [], ErrorCode.invalid_credentials)
    ∷ ("invalid token" ∷ "token expired" ∷ "session expired" ∷ [], ErrorCode.invalid_token)
    ∷ ("invalid refresh token" ∷ "refresh token not found" ∷ [], ErrorCode.refresh_token_invalid)
    ∷ ("authentication failed" ∷ "unauthorized" ∷ [], ErrorCode.authentication_failed)
    ∷ (
      "access denied" ∷ "permission denied" ∷ "insufficient permission" ∷ [],
      ErrorCode.permission_denied,
    )
    ∷ ("forbidden" ∷ [], ErrorCode.forbidden)
    ∷ ("verify your email" ∷ "email not verified" ∷ [], ErrorCode.email_not_verified)
    ∷ ("user not found" ∷ [], ErrorCode.user_not_found)
    ∷ ("not found" ∷ "does not exist" ∷ [], ErrorCode.not_found)
    ∷ ("user with this email already exists" ∷ [], ErrorCode.email_already_exists)
    ∷ ("already exists" ∷ "duplicate" ∷ [], ErrorCode.already_exists)
    ∷ ("conflict" ∷ [], ErrorCode.conflict)
    ∷ ("validation failed" ∷ "invalid input" ∷ [], ErrorCode.validation_failed)
    ∷ ("bad request" ∷ "missing required" ∷ "invalid format" ∷ [], ErrorCode.bad_request)
    ∷ []

unfoldable pub infer_error_code_from_message : String → Option ErrorCode
unfolding to_lower_case includes
infer_error_code_from_message message =
    let lower = to_lower_case (codes message) in
    Option.map (λ rule. rule.1)
      (find (λ rule. any (λ part. includes lower (codes part)) rule.0) rules)

-- What the extended `catch` hands to the filter that it extends.
converted : Exception → Option ErrorCode → Exception
converted e none = e
converted e (some code) = http_error (status_of code) code

-- The answer of the extended `catch`.
unfoldable pub catch : ℕ → Exception → ErrorResponse
unfolding converted get_error_response infer_error_code_from_message
catch now (http status message) = get_error_response now (http status message)
catch now (named name message) =
    get_error_response now (converted (named name message) (infer_error_code_from_message message))
catch now (database code message) =
    get_error_response now
      (converted (database code message) (infer_error_code_from_message message))
catch now (plain message) =
    get_error_response now (converted (plain message) (infer_error_code_from_message message))
catch now unknown = get_error_response now unknown

-- `getStatusFromErrorCode`; the cases that the source leaves to its default come last.
unfoldable pub get_status_from_error_code : ErrorCode → HttpStatus
get_status_from_error_code ErrorCode.invalid_credentials = HttpStatus.unauthorized
get_status_from_error_code ErrorCode.invalid_token = HttpStatus.unauthorized
get_status_from_error_code ErrorCode.token_expired = HttpStatus.unauthorized
get_status_from_error_code ErrorCode.token_not_found = HttpStatus.unauthorized
get_status_from_error_code ErrorCode.refresh_token_invalid = HttpStatus.unauthorized
get_status_from_error_code ErrorCode.refresh_token_not_found = HttpStatus.unauthorized
get_status_from_error_code ErrorCode.authentication_failed = HttpStatus.unauthorized
get_status_from_error_code ErrorCode.session_expired = HttpStatus.unauthorized
get_status_from_error_code ErrorCode.unauthorized = HttpStatus.unauthorized
get_status_from_error_code ErrorCode.forbidden = HttpStatus.forbidden
get_status_from_error_code ErrorCode.access_denied = HttpStatus.forbidden
get_status_from_error_code ErrorCode.permission_denied = HttpStatus.forbidden
get_status_from_error_code ErrorCode.insufficient_permissions = HttpStatus.forbidden
get_status_from_error_code ErrorCode.email_not_verified = HttpStatus.forbidden
get_status_from_error_code ErrorCode.email_verification_required = HttpStatus.forbidden
get_status_from_error_code ErrorCode.verification_token_invalid = HttpStatus.bad_request
get_status_from_error_code ErrorCode.verification_token_expired = HttpStatus.bad_request
get_status_from_error_code ErrorCode.not_found = HttpStatus.not_found
get_status_from_error_code ErrorCode.user_not_found = HttpStatus.not_found
get_status_from_error_code ErrorCode.resource_not_found = HttpStatus.not_found
get_status_from_error_code ErrorCode.already_exists = HttpStatus.conflict
get_status_from_error_code ErrorCode.email_already_exists = HttpStatus.conflict
get_status_from_error_code ErrorCode.user_already_exists = HttpStatus.conflict
get_status_from_error_code ErrorCode.duplicate_entry = HttpStatus.conflict
get_status_from_error_code ErrorCode.conflict = HttpStatus.conflict
get_status_from_error_code ErrorCode.validation_failed = HttpStatus.bad_request
get_status_from_error_code ErrorCode.invalid_input = HttpStatus.bad_request
get_status_from_error_code ErrorCode.bad_request = HttpStatus.bad_request
get_status_from_error_code ErrorCode.missing_required_field = HttpStatus.bad_request
get_status_from_error_code ErrorCode.invalid_format = HttpStatus.bad_request
get_status_from_error_code ErrorCode.invalid_email = HttpStatus.bad_request
get_status_from_error_code ErrorCode.invalid_password = HttpStatus.bad_request
get_status_from_error_code ErrorCode.rate_limit_exceeded = HttpStatus.too_many_requests
get_status_from_error_code ErrorCode.too_many_requests = HttpStatus.too_many_requests
get_status_from_error_code ErrorCode.csrf_token_missing = HttpStatus.forbidden
get_status_from_error_code ErrorCode.csrf_token_invalid = HttpStatus.forbidden
get_status_from_error_code ErrorCode.service_unavailable = HttpStatus.service_unavailable
get_status_from_error_code ErrorCode.external_service_error = HttpStatus.bad_gateway
get_status_from_error_code _ = HttpStatus.internal_server_error

pub record PrismaAnswer : Type 0 where
  pub status_code : ℕ
  pub message : String
  pub code : ErrorCode
  pub error : String
  pub timestamp : ℕ

-- The `switch` on the database's error code.
unfoldable pub prisma_error_code : String → ErrorCode
prisma_error_code code =
    if code === "P2002"
    then ErrorCode.already_exists
    else if code === "P2025"
    then ErrorCode.not_found
    else if code === "P2003"
    then ErrorCode.invalid_input
    else if code === "P2014"
    then ErrorCode.conflict
    else ErrorCode.database_error

prisma_message : String → String
prisma_message code =
    if code === "P2002"
    then message_of ErrorCode.already_exists
    else if code === "P2025"
    then message_of ErrorCode.not_found
    else if code === "P2003"
    then "Invalid reference to related resource"
    else if code === "P2014"
    then "Cannot delete resource due to related dependencies"
    else message_of ErrorCode.database_error

-- `PrismaExceptionFilter.catch`, for a database error with the given code.
unfoldable pub prisma_catch : ℕ → String → PrismaAnswer
unfolding prisma_error_code prisma_message status_of message_of
prisma_catch now code = record {
  status_code = number (status_of (prisma_error_code code));
  message = prisma_message code;
  code = prisma_error_code code;
  error = code;
  timestamp = now;
}
