-- ===== src/Errors/Tests.antt =====
-- The theorems about the exception filters at concrete exceptions.
use demo_t.Base.{some, ◌≡◌, ◌↔◌, false}
use demo_t.Errors.Codes.{HttpStatus, ErrorCode, value}
use demo_t.Errors.Tables.{message_of}
use demo_t.Errors.Exceptions.{database, plain, http_error}
use demo_t.Errors.Filters.{get_error_code_from_message, get_error_response, catch}
use demo_t.Errors.Filters.Answers.{
  IsPublicText, get_error_code_from_message_iff, get_error_response-http_error, catch-IsPublicText,
}
use demo_t.Errors.Filters.Legacy.{is_misread, catch-plain_code}

get_error_code_from_message_iff_example :
    (get_error_code_from_message "INVALID_TOKEN" ≡ some ErrorCode.invalid_token)
    ↔ (value ErrorCode.invalid_token ≡ "INVALID_TOKEN")
get_error_code_from_message_iff_example =
    get_error_code_from_message_iff "INVALID_TOKEN" ErrorCode.invalid_token

get_error_response-http_error_example :
    get_error_response 7 (http_error HttpStatus.conflict ErrorCode.already_exists) ≡ record {
      status_code = 409;
      message = message_of ErrorCode.already_exists;
      error_code = some ErrorCode.already_exists;
      timestamp = 7;
    }
get_error_response-http_error_example =
    get_error_response-http_error 7 HttpStatus.conflict ErrorCode.already_exists

catch-IsPublicText_example : IsPublicText (catch 7 (database "P2002" "Unique constraint")).message
catch-IsPublicText_example = catch-IsPublicText 7 (database "P2002" "Unique constraint") tt

catch-plain_code_example :
    ((catch 7 (plain "UNAUTHORIZED")).error_code ≡ some ErrorCode.unauthorized)
    ↔ (is_misread ErrorCode.unauthorized ≡ false)
catch-plain_code_example = catch-plain_code 7 ErrorCode.unauthorized
