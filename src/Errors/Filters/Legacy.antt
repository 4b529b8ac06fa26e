-- ===== src/Errors/Filters/Legacy.antt =====
-- The two places where the gateway keeps a second opinion about a code: the inference from a message
-- that is already a code, and the second status table.
use demo_t.Base.{ℕ, Bool, true, false, Option, none, some, ◌≡◌, refl, ap, ◌↔◌}
use demo_t.Errors.Codes.{ErrorCode, value}
use demo_t.Errors.Tables.{status_of}
use demo_t.Errors.Exceptions.{plain}
use demo_t.Errors.Filters.{
  get_error_response, infer_error_code_from_message, converted, catch, get_status_from_error_code,
}
use demo_t.Errors.Filters.Answers.{get_error_response-http_error, get_error_response-plain_code}

-- The codes whose own text the legacy inference takes for another code.
abbrev pub is_misread : ErrorCode → Bool
is_misread ErrorCode.unauthorized = true
is_misread ErrorCode.duplicate_entry = true
is_misread _ = false

-- What the inference makes of a code's own text.
abbrev read_as : ErrorCode → Option ErrorCode
read_as ErrorCode.unauthorized = some ErrorCode.authentication_failed
read_as ErrorCode.forbidden = some ErrorCode.forbidden
read_as ErrorCode.duplicate_entry = some ErrorCode.already_exists
read_as ErrorCode.conflict = some ErrorCode.conflict
read_as _ = none

infer_error_code_from_message-value :
    (c : ErrorCode) → infer_error_code_from_message (value c) ≡ read_as c
unfolding infer_error_code_from_message
infer_error_code_from_message-value ErrorCode.invalid_credentials = refl
infer_error_code_from_message-value ErrorCode.invalid_token = refl
infer_error_code_from_message-value ErrorCode.token_expired = refl
infer_error_code_from_message-value ErrorCode.token_not_found = refl
infer_error_code_from_message-value ErrorCode.refresh_token_invalid = refl
infer_error_code_from_message-value ErrorCode.refresh_token_not_found = refl
infer_error_code_from_message-value ErrorCode.authentication_failed = refl
infer_error_code_from_message-value ErrorCode.session_expired = refl
infer_error_code_from_message-value ErrorCode.token_payload_mismatch = refl
infer_error_code_from_message-value ErrorCode.unauthorized = refl
infer_error_code_from_message-value ErrorCode.forbidden = refl
infer_error_code_from_message-value ErrorCode.access_denied = refl
infer_error_code_from_message-value ErrorCode.permission_denied = refl
infer_error_code_from_message-value ErrorCode.insufficient_permissions = refl
infer_error_code_from_message-value ErrorCode.email_not_verified = refl
infer_error_code_from_message-value ErrorCode.email_verification_required = refl
infer_error_code_from_message-value ErrorCode.verification_token_invalid = refl
infer_error_code_from_message-value ErrorCode.verification_token_expired = refl
infer_error_code_from_message-value ErrorCode.unverified_account_exists = refl
infer_error_code_from_message-value ErrorCode.email_already_verified = refl
infer_error_code_from_message-value ErrorCode.not_found = refl
infer_error_code_from_message-value ErrorCode.user_not_found = refl
infer_error_code_from_message-value ErrorCode.resource_not_found = refl
infer_error_code_from_message-value ErrorCode.user_update_failed = refl
infer_error_code_from_message-value ErrorCode.user_not_active = refl
infer_error_code_from_message-value ErrorCode.user_no_longer_exists = refl
infer_error_code_from_message-value ErrorCode.invalid_user_id = refl
infer_error_code_from_message-value ErrorCode.already_exists = refl
infer_error_code_from_message-value ErrorCode.email_already_exists = refl
infer_error_code_from_message-value ErrorCode.user_already_exists = refl
infer_error_code_from_message-value ErrorCode.duplicate_entry = refl
infer_error_code_from_message-value ErrorCode.conflict = refl
infer_error_code_from_message-value ErrorCode.validation_failed = refl
infer_error_code_from_message-value ErrorCode.invalid_input = refl
infer_error_code_from_message-value ErrorCode.bad_request = refl
infer_error_code_from_message-value ErrorCode.missing_required_field = refl
infer_error_code_from_message-value ErrorCode.invalid_format = refl
infer_error_code_from_message-value ErrorCode.invalid_email = refl
infer_error_code_from_message-value ErrorCode.invalid_password = refl
infer_error_code_from_message-value ErrorCode.rate_limit_exceeded = refl
infer_error_code_from_message-value ErrorCode.too_many_requests = refl
infer_error_code_from_message-value ErrorCode.csrf_token_missing = refl
infer_error_code_from_message-value ErrorCode.csrf_token_invalid = refl
infer_error_code_from_message-value ErrorCode.csrf_validation_failed = refl
infer_error_code_from_message-value ErrorCode.internal_server_error = refl
infer_error_code_from_message-value ErrorCode.server_error = refl
infer_error_code_from_message-value ErrorCode.service_unavailable = refl
infer_error_code_from_message-value ErrorCode.database_error = refl
infer_error_code_from_message-value ErrorCode.external_service_error = refl

-- The codes on which the second status table differs from the shared one.
abbrev pub is_missing : ErrorCode → Bool
is_missing ErrorCode.token_payload_mismatch = true
is_missing ErrorCode.unverified_account_exists = true
is_missing ErrorCode.email_already_verified = true
is_missing ErrorCode.user_update_failed = true
is_missing ErrorCode.user_not_active = true
is_missing ErrorCode.user_no_longer_exists = true
is_missing ErrorCode.invalid_user_id = true
is_missing ErrorCode.csrf_validation_failed = true
is_missing _ = false

-- The gateway's own status table gives the shared table's status for a code exactly when the code is
-- none of the eight that it leaves to its default.
pub get_status_from_error_code_iff :
    (c : ErrorCode) → (get_status_from_error_code c ≡ status_of c) ↔ (is_missing c ≡ false)
unfolding get_status_from_error_code status_of
get_status_from_error_code_iff ErrorCode.invalid_credentials = (λ _. refl, λ _. refl)
get_status_from_error_code_iff ErrorCode.invalid_token = (λ _. refl, λ _. refl)
get_status_from_error_code_iff ErrorCode.token_expired = (λ _. refl, λ _. refl)
get_status_from_error_code_iff ErrorCode.token_not_found = (λ _. refl, λ _. refl)
get_status_from_error_code_iff ErrorCode.refresh_token_invalid = (λ _. refl, λ _. refl)
get_status_from_error_code_iff ErrorCode.refresh_token_not_found = (λ _. refl, λ _. refl)
get_status_from_error_code_iff ErrorCode.authentication_failed = (λ _. refl, λ _. refl)
get_status_from_error_code_iff ErrorCode.session_expired = (λ _. refl, λ _. refl)
get_status_from_error_code_iff ErrorCode.token_payload_mismatch = (λ e. cc, λ e. cc)
get_status_from_error_code_iff ErrorCode.unauthorized = (λ _. refl, λ _. refl)
get_status_from_error_code_iff ErrorCode.forbidden = (λ _. refl, λ _. refl)
get_status_from_error_code_iff ErrorCode.access_denied = (λ _. refl, λ _. refl)
get_status_from_error_code_iff ErrorCode.permission_denied = (λ _. refl, λ _. refl)
get_status_from_error_code_iff ErrorCode.insufficient_permissions = (λ _. refl, λ _. refl)
get_status_from_error_code_iff ErrorCode.email_not_verified = (λ _. refl, λ _. refl)
get_status_from_error_code_iff ErrorCode.email_verification_required = (λ _. refl, λ _. refl)
get_status_from_error_code_iff ErrorCode.verification_token_invalid = (λ _. refl, λ _. refl)
get_status_from_error_code_iff ErrorCode.verification_token_expired = (λ _. refl, λ _. refl)
get_status_from_error_code_iff ErrorCode.unverified_account_exists = (λ e. cc, λ e. cc)
get_status_from_error_code_iff ErrorCode.email_already_verified = (λ e. cc, λ e. cc)
get_status_from_error_code_iff ErrorCode.not_found = (λ _. refl, λ _. refl)
get_status_from_error_code_iff ErrorCode.user_not_found = (λ _. refl, λ _. refl)
get_status_from_error_code_iff ErrorCode.resource_not_found = (λ _. refl, λ _. refl)
get_status_from_error_code_iff ErrorCode.user_update_failed = (λ e. cc, λ e. cc)
get_status_from_error_code_iff ErrorCode.user_not_active = (λ e. cc, λ e. cc)
get_status_from_error_code_iff ErrorCode.user_no_longer_exists = (λ e. cc, λ e. cc)
get_status_from_error_code_iff ErrorCode.invalid_user_id = (λ e. cc, λ e. cc)
get_status_from_error_code_iff ErrorCode.already_exists = (λ _. refl, λ _. refl)
get_status_from_error_code_iff ErrorCode.email_already_exists = (λ _. refl, λ _. refl)
get_status_from_error_code_iff ErrorCode.user_already_exists = (λ _. refl, λ _. refl)
get_status_from_error_code_iff ErrorCode.duplicate_entry = (λ _. refl, λ _. refl)
get_status_from_error_code_iff ErrorCode.conflict = (λ _. refl, λ _. refl)
get_status_from_error_code_iff ErrorCode.validation_failed = (λ _. refl, λ _. refl)
get_status_from_error_code_iff ErrorCode.invalid_input = (λ _. refl, λ _. refl)
get_status_from_error_code_iff ErrorCode.bad_request = (λ _. refl, λ _. refl)
get_status_from_error_code_iff ErrorCode.missing_required_field = (λ _. refl, λ _. refl)
get_status_from_error_code_iff ErrorCode.invalid_format = (λ _. refl, λ _. refl)
get_status_from_error_code_iff ErrorCode.invalid_email = (λ _. refl, λ _. refl)
get_status_from_error_code_iff ErrorCode.invalid_password = (λ _. refl, λ _. refl)
get_status_from_error_code_iff ErrorCode.rate_limit_exceeded = (λ _. refl, λ _. refl)
get_status_from_error_code_iff ErrorCode.too_many_requests = (λ _. refl, λ _. refl)
get_status_from_error_code_iff ErrorCode.csrf_token_missing = (λ _. refl, λ _. refl)
get_status_from_error_code_iff ErrorCode.csrf_token_invalid = (λ _. refl, λ _. refl)
get_status_from_error_code_iff ErrorCode.csrf_validation_failed = (λ e. cc, λ e. cc)
get_status_from_error_code_iff ErrorCode.internal_server_error = (λ _. refl, λ _. refl)
get_status_from_error_code_iff ErrorCode.server_error = (λ _. refl, λ _. refl)
get_status_from_error_code_iff ErrorCode.service_unavailable = (λ _. refl, λ _. refl)
get_status_from_error_code_iff ErrorCode.database_error = (λ _. refl, λ _. refl)
get_status_from_error_code_iff ErrorCode.external_service_error = (λ _. refl, λ _. refl)

-- The code that an answer carries when the inference gave `r`.
abbrev answered : ErrorCode → Option ErrorCode → ErrorCode
answered c none = c
answered c (some d) = d

converted-error_code :
    (now : ℕ) (c : ErrorCode) (r : Option ErrorCode)
    → (get_error_response now (converted (plain (value c)) r)).error_code ≡ some (answered c r)
unfolding converted
converted-error_code now c none = get_error_response-plain_code now c
converted-error_code now c (some d) =
    ap (λ a. a.error_code) (get_error_response-http_error now (status_of d) d)

answered-read_as :
    (c : ErrorCode) → (some (answered c (read_as c)) ≡ some c) ↔ (is_misread c ≡ false)
answered-read_as ErrorCode.unauthorized = (λ e. cc, λ e. cc)
answered-read_as ErrorCode.duplicate_entry = (λ e. cc, λ e. cc)
answered-read_as _ = (λ _. refl, λ _. refl)

-- An `Error` whose message is a code is answered by the gateway with that code, unless the code is
-- `UNAUTHORIZED` or `DUPLICATE_ENTRY`, and then it is not answered with it.
pub catch-plain_code :
    (now : ℕ) (c : ErrorCode)
    → ((catch now (plain (value c))).error_code ≡ some c) ↔ (is_misread c ≡ false)
unfolding catch
catch-plain_code now c =
    rw (infer_error_code_from_message-value c, converted-error_code) (answered-read_as c)
