-- ===== src/Gateway/Relay.antt =====
-- How a refusal of the auth service reaches the client through the gateway. The auth service answers
-- with a code's status, message and code; but `signIn`, `refreshToken` and `logout` of the gateway throw
-- an `Error` with the message alone, and the gateway's filter infers a code from that message.
use demo_t.Base.{ℕ, String, Option, none, some, ◌≡◌, refl}
use demo_t.Errors.Codes.{ErrorCode, number}
use demo_t.Errors.Tables.{status_of, message_of}
use demo_t.Errors.Exceptions.{plain}
use demo_t.Errors.Filters.{
  ErrorResponse, get_error_response, get_error_code_from_message, infer_error_code_from_message,
  catch,
}
use demo_t.Gateway.Http.{text, message_or}

-- What the inference makes of a code's message.
abbrev pub inferred : ErrorCode → Option ErrorCode
inferred ErrorCode.invalid_credentials = some ErrorCode.invalid_credentials
inferred ErrorCode.token_not_found = some ErrorCode.not_found
inferred ErrorCode.refresh_token_invalid = some ErrorCode.refresh_token_invalid
inferred ErrorCode.refresh_token_not_found = some ErrorCode.refresh_token_invalid
inferred ErrorCode.authentication_failed = some ErrorCode.authentication_failed
inferred ErrorCode.unauthorized = some ErrorCode.authentication_failed
inferred ErrorCode.forbidden = some ErrorCode.forbidden
inferred ErrorCode.access_denied = some ErrorCode.permission_denied
inferred ErrorCode.insufficient_permissions = some ErrorCode.permission_denied
inferred ErrorCode.email_not_verified = some ErrorCode.email_not_verified
inferred ErrorCode.unverified_account_exists = some ErrorCode.already_exists
inferred ErrorCode.not_found = some ErrorCode.not_found
inferred ErrorCode.user_not_found = some ErrorCode.user_not_found
inferred ErrorCode.already_exists = some ErrorCode.already_exists
inferred ErrorCode.user_already_exists = some ErrorCode.already_exists
inferred ErrorCode.duplicate_entry = some ErrorCode.already_exists
inferred ErrorCode.conflict = some ErrorCode.conflict
inferred ErrorCode.invalid_input = some ErrorCode.validation_failed
inferred ErrorCode.bad_request = some ErrorCode.bad_request
inferred ErrorCode.missing_required_field = some ErrorCode.bad_request
inferred ErrorCode.invalid_format = some ErrorCode.bad_request
inferred ErrorCode.csrf_token_missing = some ErrorCode.validation_failed
inferred ErrorCode.csrf_token_invalid = some ErrorCode.validation_failed
inferred ErrorCode.csrf_validation_failed = some ErrorCode.validation_failed
inferred _ = none

-- The answer to a message from which a code was inferred, or none.
abbrev pub answer_for : ℕ → Option ErrorCode → ErrorResponse
answer_for now none = record {
  status_code = 500;
  message = "Internal server error";
  error_code = none;
  timestamp = now;
}
answer_for now (some code) = record {
  status_code = number (status_of code);
  message = message_of code;
  error_code = some code;
  timestamp = now;
}

pub catch-message :
    (now : ℕ) (c : ErrorCode) → catch now (plain (message_of c)) ≡ answer_for now (inferred c)
unfolding catch infer_error_code_from_message get_error_response get_error_code_from_message
    message_of status_of
catch-message now ErrorCode.invalid_credentials = refl
catch-message now ErrorCode.invalid_token = refl
catch-message now ErrorCode.token_expired = refl
catch-message now ErrorCode.token_not_found = refl
catch-message now ErrorCode.refresh_token_invalid = refl
catch-message now ErrorCode.refresh_token_not_found = refl
catch-message now ErrorCode.authentication_failed = refl
catch-message now ErrorCode.session_expired = refl
catch-message now ErrorCode.token_payload_mismatch = refl
catch-message now ErrorCode.unauthorized = refl
catch-message now ErrorCode.forbidden = refl
catch-message now ErrorCode.access_denied = refl
catch-message now ErrorCode.permission_denied = refl
catch-message now ErrorCode.insufficient_permissions = refl
catch-message now ErrorCode.email_not_verified = refl
catch-message now ErrorCode.email_verification_required = refl
catch-message now ErrorCode.verification_token_invalid = refl
catch-message now ErrorCode.verification_token_expired = refl
catch-message now ErrorCode.unverified_account_exists = refl
catch-message now ErrorCode.email_already_verified = refl
catch-message now ErrorCode.not_found = refl
catch-message now ErrorCode.user_not_found = refl
catch-message now ErrorCode.resource_not_found = refl
catch-message now ErrorCode.user_update_failed = refl
catch-message now ErrorCode.user_not_active = refl
catch-message now ErrorCode.user_no_longer_exists = refl
catch-message now ErrorCode.invalid_user_id = refl
catch-message now ErrorCode.already_exists = refl
catch-message now ErrorCode.email_already_exists = refl
catch-message now ErrorCode.user_already_exists = refl
catch-message now ErrorCode.duplicate_entry = refl
catch-message now ErrorCode.conflict = refl
catch-message now ErrorCode.validation_failed = refl
catch-message now ErrorCode.invalid_input = refl
catch-message now ErrorCode.bad_request = refl
catch-message now ErrorCode.missing_required_field = refl
catch-message now ErrorCode.invalid_format = refl
catch-message now ErrorCode.invalid_email = refl
catch-message now ErrorCode.invalid_password = refl
catch-message now ErrorCode.rate_limit_exceeded = refl
catch-message now ErrorCode.too_many_requests = refl
catch-message now ErrorCode.csrf_token_missing = refl
catch-message now ErrorCode.csrf_token_invalid = refl
catch-message now ErrorCode.csrf_validation_failed = refl
catch-message now ErrorCode.internal_server_error = refl
catch-message now ErrorCode.server_error = refl
catch-message now ErrorCode.service_unavailable = refl
catch-message now ErrorCode.database_error = refl
catch-message now ErrorCode.external_service_error = refl

-- No message is the empty text.
pub message_or-message :
    (c : ErrorCode) (other : String) → message_or (some (text (message_of c))) other ≡ message_of c
unfolding message_or message_of
message_or-message ErrorCode.invalid_credentials other = refl
message_or-message ErrorCode.invalid_token other = refl
message_or-message ErrorCode.token_expired other = refl
message_or-message ErrorCode.token_not_found other = refl
message_or-message ErrorCode.refresh_token_invalid other = refl
message_or-message ErrorCode.refresh_token_not_found other = refl
message_or-message ErrorCode.authentication_failed other = refl
message_or-message ErrorCode.session_expired other = refl
message_or-message ErrorCode.token_payload_mismatch other = refl
message_or-message ErrorCode.unauthorized other = refl
message_or-message ErrorCode.forbidden other = refl
message_or-message ErrorCode.access_denied other = refl
message_or-message ErrorCode.permission_denied other = refl
message_or-message ErrorCode.insufficient_permissions other = refl
message_or-message ErrorCode.email_not_verified other = refl
message_or-message ErrorCode.email_verification_required other = refl
message_or-message ErrorCode.verification_token_invalid other = refl
message_or-message ErrorCode.verification_token_expired other = refl
message_or-message ErrorCode.unverified_account_exists other = refl
message_or-message ErrorCode.email_already_verified other = refl
message_or-message ErrorCode.not_found other = refl
message_or-message ErrorCode.user_not_found other = refl
message_or-message ErrorCode.resource_not_found other = refl
message_or-message ErrorCode.user_update_failed other = refl
message_or-message ErrorCode.user_not_active other = refl
message_or-message ErrorCode.user_no_longer_exists other = refl
message_or-message ErrorCode.invalid_user_id other = refl
message_or-message ErrorCode.already_exists other = refl
message_or-message ErrorCode.email_already_exists other = refl
message_or-message ErrorCode.user_already_exists other = refl
message_or-message ErrorCode.duplicate_entry other = refl
message_or-message ErrorCode.conflict other = refl
message_or-message ErrorCode.validation_failed other = refl
message_or-message ErrorCode.invalid_input other = refl
message_or-message ErrorCode.bad_request other = refl
message_or-message ErrorCode.missing_required_field other = refl
message_or-message ErrorCode.invalid_format other = refl
message_or-message ErrorCode.invalid_email other = refl
message_or-message ErrorCode.invalid_password other = refl
message_or-message ErrorCode.rate_limit_exceeded other = refl
message_or-message ErrorCode.too_many_requests other = refl
message_or-message ErrorCode.csrf_token_missing other = refl
message_or-message ErrorCode.csrf_token_invalid other = refl
message_or-message ErrorCode.csrf_validation_failed other = refl
message_or-message ErrorCode.internal_server_error other = refl
message_or-message ErrorCode.server_error other = refl
message_or-message ErrorCode.service_unavailable other = refl
message_or-message ErrorCode.database_error other = refl
message_or-message ErrorCode.external_service_error other = refl
