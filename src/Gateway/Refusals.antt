-- ===== src/Gateway/Refusals.antt =====
-- How a refusal of the auth service reaches the client of the gateway.
use demo_t.Base.{
  ℕ, String, Bool, true, false, Option, none, some, ◌≡◌, refl, ap, ◌∙◌, ◌==◌, ◌===◌, ◌&&◌,
}
use demo_t.Errors.Codes.{HttpStatus, ErrorCode, number, value}
use demo_t.Errors.Tables.{status_of, message_of}
use demo_t.Errors.Exceptions.{http_error, Result, ok, err}
use demo_t.Errors.Filters.{ErrorResponse, get_error_response, catch}
use demo_t.Errors.Filters.Answers.{get_error_response-http_error}
use demo_t.Auth.Rows.{DeviceInfo}
use demo_t.Auth.Users.{CreateUserParams}
use demo_t.Gateway.Http.{
  sign_in_call, refresh_call, register_call, Sender, Response, response_of, is_valid_response,
}
use demo_t.Gateway.Calls.{
  request, body_or_throw, refused_registration, register_user, sign_in, refresh_token,
}
use demo_t.Gateway.Relay.{inferred, answer_for, catch-message, message_or-message}

-- What the client is answered where a method throws.
abbrev pub client_answer : {A : Type 0} → ℕ → Result A → Option ErrorResponse
client_answer now (ok a) = none
client_answer now (err e) = some (catch now e)

and_false : (b : Bool) → b && false ≡ false
and_false true = refl
and_false false = refl

-- No code is the empty text, and no status is 0.
value_text : (c : ErrorCode) → (value c === "") ≡ false
value_text ErrorCode.invalid_credentials = refl
value_text ErrorCode.invalid_token = refl
value_text ErrorCode.token_expired = refl
value_text ErrorCode.token_not_found = refl
value_text ErrorCode.refresh_token_invalid = refl
value_text ErrorCode.refresh_token_not_found = refl
value_text ErrorCode.authentication_failed = refl
value_text ErrorCode.session_expired = refl
value_text ErrorCode.token_payload_mismatch = refl
value_text ErrorCode.unauthorized = refl
value_text ErrorCode.forbidden = refl
value_text ErrorCode.access_denied = refl
value_text ErrorCode.permission_denied = refl
value_text ErrorCode.insufficient_permissions = refl
value_text ErrorCode.email_not_verified = refl
value_text ErrorCode.email_verification_required = refl
value_text ErrorCode.verification_token_invalid = refl
value_text ErrorCode.verification_token_expired = refl
value_text ErrorCode.unverified_account_exists = refl
value_text ErrorCode.email_already_verified = refl
value_text ErrorCode.not_found = refl
value_text ErrorCode.user_not_found = refl
value_text ErrorCode.resource_not_found = refl
value_text ErrorCode.user_update_failed = refl
value_text ErrorCode.user_not_active = refl
value_text ErrorCode.user_no_longer_exists = refl
value_text ErrorCode.invalid_user_id = refl
value_text ErrorCode.already_exists = refl
value_text ErrorCode.email_already_exists = refl
value_text ErrorCode.user_already_exists = refl
value_text ErrorCode.duplicate_entry = refl
value_text ErrorCode.conflict = refl
value_text ErrorCode.validation_failed = refl
value_text ErrorCode.invalid_input = refl
value_text ErrorCode.bad_request = refl
value_text ErrorCode.missing_required_field = refl
value_text ErrorCode.invalid_format = refl
value_text ErrorCode.invalid_email = refl
value_text ErrorCode.invalid_password = refl
value_text ErrorCode.rate_limit_exceeded = refl
value_text ErrorCode.too_many_requests = refl
value_text ErrorCode.csrf_token_missing = refl
value_text ErrorCode.csrf_token_invalid = refl
value_text ErrorCode.csrf_validation_failed = refl
value_text ErrorCode.internal_server_error = refl
value_text ErrorCode.server_error = refl
value_text ErrorCode.service_unavailable = refl
value_text ErrorCode.database_error = refl
value_text ErrorCode.external_service_error = refl

status_number : (s : HttpStatus) → (number s == 0) ≡ false
status_number HttpStatus.bad_request = refl
status_number HttpStatus.unauthorized = refl
status_number HttpStatus.forbidden = refl
status_number HttpStatus.not_found = refl
status_number HttpStatus.conflict = refl
status_number HttpStatus.too_many_requests = refl
status_number HttpStatus.internal_server_error = refl
status_number HttpStatus.bad_gateway = refl
status_number HttpStatus.service_unavailable = refl

-- The auth service's answer to a refusal with this status and code.
abbrev pub refusal : ℕ → HttpStatus → ErrorCode → Response
refusal at status c = response_of (get_error_response at (http_error status c))

module _ (send : Sender) (url : String) (at now : ℕ) (status : HttpStatus) (c : ErrorCode) where
  -- A refused sign-in is answered as the inference reads the message of its code.
  sign_in-inferred :
      (email password : String) (device : DeviceInfo)
      → request send url (sign_in_call email password device) ≡ ok (refusal at status c)
      → client_answer now (sign_in send url email password device)
        ≡ some (answer_for now (inferred c))
  unfolding sign_in is_valid_response body_or_throw
  sign_in-inferred email password device sent = rw sent (
      rw (get_error_response-http_error at status c) (
        rw (and_false (number status == 200), message_or-message c "Invalid credentials")
          (ap some (catch-message now c))))

  -- A refused refresh is answered as the gateway's inference reads the message of the refusal's code: a
  -- code of which it makes nothing, such as TOKEN_EXPIRED, becomes the status 500 without a code.
  pub refresh_token-inferred :
      (token : String) (device : DeviceInfo)
      → request send url (refresh_call token device) ≡ ok (refusal at status c)
      → client_answer now (refresh_token send url token device) ≡ some (answer_for now (inferred c))
  unfolding refresh_token is_valid_response body_or_throw
  refresh_token-inferred token device sent = rw sent (
      rw (get_error_response-http_error at status c) (
        rw (and_false (number status == 200), message_or-message c "Invalid refresh token")
          (ap some (catch-message now c))))

  -- A refused registration reaches the client as it is: with the status and the code of the auth
  -- service's refusal, and the table's text for the code.
  pub register_user-relays :
      (params : CreateUserParams) (device : DeviceInfo)
      → request send url (register_call params device) ≡ ok (refusal at status c)
      → client_answer now (register_user send url params device)
        ≡ some (record {
          status_code = number status;
          message = message_of c;
          error_code = some c;
          timestamp = now;
        })
  unfolding register_user is_valid_response body_or_throw refused_registration catch
  register_user-relays params device sent = rw sent (
      rw (get_error_response-http_error at status c) (
        rw (and_false (number status == 201), value_text c, status_number status)
          (ap some (get_error_response-http_error now status c))))

-- The refusals of a sign-in by the auth service.
abbrev pub is_sign_in_refusal : HttpStatus → ErrorCode → Bool
is_sign_in_refusal HttpStatus.not_found ErrorCode.user_not_found = true
is_sign_in_refusal HttpStatus.forbidden ErrorCode.email_not_verified = true
is_sign_in_refusal HttpStatus.unauthorized ErrorCode.invalid_credentials = true
is_sign_in_refusal _ _ = false

refusal_answer :
    (now : ℕ) (status : HttpStatus) (c : ErrorCode)
    → is_sign_in_refusal status c ≡ true
    → answer_for now (inferred c) ≡ record {
      status_code = number status;
      message = message_of c;
      error_code = some c;
      timestamp = now;
    }
unfolding status_of
refusal_answer now HttpStatus.not_found ErrorCode.user_not_found h = refl
refusal_answer now HttpStatus.forbidden ErrorCode.email_not_verified h = refl
refusal_answer now HttpStatus.unauthorized ErrorCode.invalid_credentials h = refl
refusal_answer now _ _ h = cc

-- A sign-in that the auth service refuses, for an unknown account, an unverified email or a wrong
-- password, is answered to the client with the status, the code and the text of that refusal.
pub sign_in-relays :
    (send : Sender) (url : String) (at now : ℕ) (status : HttpStatus) (c : ErrorCode)
    (email password : String) (device : DeviceInfo)
    → request send url (sign_in_call email password device) ≡ ok (refusal at status c)
    → is_sign_in_refusal status c ≡ true
    → client_answer now (sign_in send url email password device)
      ≡ some (record {
        status_code = number status;
        message = message_of c;
        error_code = some c;
        timestamp = now;
      })
sign_in-relays send url at now status c email password device sent h =
    sign_in-inferred send url at now status c email password device sent
    ∙ ap some (refusal_answer now status c h)
