-- ===== src/Errors/Filters/Answers.antt =====
-- What a client is told about an exception.
use demo_t.Base.{
  ℕ, String, Option, none, some, ◌≡◌, refl, ap, ◌↔◌, ◌⊎◌, inl, inr, ◌∷◌, [], List, arith, ◌==◌,
  ◌===◌, eq_iff, find, Bool-cases,
}
use demo_t.Errors.Codes.{HttpStatus, ErrorCode, value, values, number}
use demo_t.Errors.Tables.{status_of, message_of}
use demo_t.Errors.Exceptions.{Exception, http, named, database, plain, unknown, http_error}
use demo_t.Errors.Filters.{
  get_error_code_from_message, plain_response, get_error_response, infer_error_code_from_message,
  converted, catch,
}

-- A code that a search for a text finds has that text for its value.
find-value :
    (m : String) (cs : List ErrorCode) (c : ErrorCode)
    → find (λ code. value code === m) cs ≡ some c
    → value c ≡ m
find-value m [] c h = cc
find-value m (d ∷ cs) c h = ground (arith, eq_iff (value d) m, find-value m cs c)

code_of_value : (c : ErrorCode) → get_error_code_from_message (value c) ≡ some c
unfolding get_error_code_from_message
code_of_value ErrorCode.invalid_credentials = refl
code_of_value ErrorCode.invalid_token = refl
code_of_value ErrorCode.token_expired = refl
code_of_value ErrorCode.token_not_found = refl
code_of_value ErrorCode.refresh_token_invalid = refl
code_of_value ErrorCode.refresh_token_not_found = refl
code_of_value ErrorCode.authentication_failed = refl
code_of_value ErrorCode.session_expired = refl
code_of_value ErrorCode.token_payload_mismatch = refl
code_of_value ErrorCode.unauthorized = refl
code_of_value ErrorCode.forbidden = refl
code_of_value ErrorCode.access_denied = refl
code_of_value ErrorCode.permission_denied = refl
code_of_value ErrorCode.insufficient_permissions = refl
code_of_value ErrorCode.email_not_verified = refl
code_of_value ErrorCode.email_verification_required = refl
code_of_value ErrorCode.verification_token_invalid = refl
code_of_value ErrorCode.verification_token_expired = refl
code_of_value ErrorCode.unverified_account_exists = refl
code_of_value ErrorCode.email_already_verified = refl
code_of_value ErrorCode.not_found = refl
code_of_value ErrorCode.user_not_found = refl
code_of_value ErrorCode.resource_not_found = refl
code_of_value ErrorCode.user_update_failed = refl
code_of_value ErrorCode.user_not_active = refl
code_of_value ErrorCode.user_no_longer_exists = refl
code_of_value ErrorCode.invalid_user_id = refl
code_of_value ErrorCode.already_exists = refl
code_of_value ErrorCode.email_already_exists = refl
code_of_value ErrorCode.user_already_exists = refl
code_of_value ErrorCode.duplicate_entry = refl
code_of_value ErrorCode.conflict = refl
code_of_value ErrorCode.validation_failed = refl
code_of_value ErrorCode.invalid_input = refl
code_of_value ErrorCode.bad_request = refl
code_of_value ErrorCode.missing_required_field = refl
code_of_value ErrorCode.invalid_format = refl
code_of_value ErrorCode.invalid_email = refl
code_of_value ErrorCode.invalid_password = refl
code_of_value ErrorCode.rate_limit_exceeded = refl
code_of_value ErrorCode.too_many_requests = refl
code_of_value ErrorCode.csrf_token_missing = refl
code_of_value ErrorCode.csrf_token_invalid = refl
code_of_value ErrorCode.csrf_validation_failed = refl
code_of_value ErrorCode.internal_server_error = refl
code_of_value ErrorCode.server_error = refl
code_of_value ErrorCode.service_unavailable = refl
code_of_value ErrorCode.database_error = refl
code_of_value ErrorCode.external_service_error = refl

-- A message is recognised as a code exactly when it is that code's own text.
pub get_error_code_from_message_iff :
    (message : String) (c : ErrorCode)
    → (get_error_code_from_message message ≡ some c) ↔ (value c ≡ message)
unfolding get_error_code_from_message
get_error_code_from_message_iff message c =
    (find-value message values c, λ e. rw (← e) (code_of_value c))

-- A text that the filters may show for an exception that is no NestJS exception: the fixed one, or
-- the table's text for a code.
abbrev pub IsPublicText : String → Type 0
IsPublicText text = (text ≡ "Internal server error") ⊎ ((c : ErrorCode) × (text ≡ message_of c))

plain_response-IsPublicText :
    (now : ℕ) (code : Option ErrorCode) → IsPublicText (plain_response now code).message
unfolding plain_response
plain_response-IsPublicText now none = inl refl
plain_response-IsPublicText now (some c) =
    elim (Bool-cases (number (status_of c) == number HttpStatus.internal_server_error)) [
      | inl e ↦ inl (rw e)
      | inr e ↦ inr (c, rw e)
    ]

-- An exception that a service did not raise as a NestJS exception.
abbrev pub IsForeign : Exception → Type 0
IsForeign (http _ _) = ⊥
IsForeign _ = Unit

pub get_error_response-IsPublicText :
    (now : ℕ) (e : Exception) → IsForeign e → IsPublicText (get_error_response now e).message
unfolding get_error_response
get_error_response-IsPublicText now (http status message) h = absurd h
get_error_response-IsPublicText now (named name message) h =
    plain_response-IsPublicText now (get_error_code_from_message message)
get_error_response-IsPublicText now (database code message) h =
    plain_response-IsPublicText now (get_error_code_from_message message)
get_error_response-IsPublicText now (plain message) h =
    plain_response-IsPublicText now (get_error_code_from_message message)
get_error_response-IsPublicText now unknown h = inl refl

-- An `Error` whose message is a code is recognised by that code.
pub get_error_response-plain_code :
    (now : ℕ) (c : ErrorCode) → (get_error_response now (plain (value c))).error_code ≡ some c
unfolding get_error_response plain_response
get_error_response-plain_code now c = rw ((get_error_code_from_message_iff _ c).1 refl)

-- An application code raised as a NestJS exception.
pub get_error_response-http_error :
    (now : ℕ) (status : HttpStatus) (c : ErrorCode)
    → get_error_response now (http_error status c) ≡ record {
      status_code = number status;
      message = message_of c;
      error_code = some c;
      timestamp = now;
    }
unfolding get_error_response
get_error_response-http_error now status c = rw ((get_error_code_from_message_iff _ c).1 refl)

converted-IsPublicText :
    (now : ℕ) (e : Exception) (code : Option ErrorCode)
    → IsForeign e
    → IsPublicText (get_error_response now (converted e code)).message
unfolding converted
converted-IsPublicText now e none h = get_error_response-IsPublicText now e h
converted-IsPublicText now e (some c) h =
    inr (c, ap (λ r. r.message) (get_error_response-http_error now (status_of c) c))

-- The gateway's filter never shows a client the text of an error that is no NestJS exception: the
-- answer's message is the fixed "Internal server error" or the table's text for a code.
pub catch-IsPublicText :
    (now : ℕ) (e : Exception) → IsForeign e → IsPublicText (catch now e).message
unfolding catch
catch-IsPublicText now (http status message) h = absurd h
catch-IsPublicText now (named name message) h =
    converted-IsPublicText now (named name message) (infer_error_code_from_message message) tt
catch-IsPublicText now (database code message) h =
    converted-IsPublicText now (database code message) (infer_error_code_from_message message) tt
catch-IsPublicText now (plain message) h =
    converted-IsPublicText now (plain message) (infer_error_code_from_message message) tt
catch-IsPublicText now unknown h = get_error_response-IsPublicText now unknown tt
