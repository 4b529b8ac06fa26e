-- ===== src/Gateway/Http.antt =====
-- What the gateway and the auth service exchange: the gateway's requests, and the JSON answers. Axios is
-- not part of the repository; with `validateStatus: () => true`
-- (libs/utils-nest/src/helpers/http/http-client.ts) every status is an answer, and only a failed
-- connection throws.
use mathlib.Core.Option
use Prim.Native.String
use demo_t.Base.{
  ℕ, String, Bool, true, false, not, Option, none, some, List, [], ◌∷◌, ◌==◌, ◌===◌, ◌&&◌,
  if◌then◌else◌,
}
use demo_t.Errors.Codes.{value}
use demo_t.Errors.Exceptions.{Result}
use demo_t.Errors.Filters.{ErrorResponse}
use demo_t.Auth.Rows.{DeviceInfo}
use demo_t.Auth.Backend.{Payload}
use demo_t.Auth.Users.{CreateUserParams, UpdateUserParams}

-- A message is a text, or the list of texts of a failed validation.
pub data Message : Type 0 where
  text : String → Message
  texts : List String → Message

-- The fields of the JSON bodies that the gateway reads; `none` is `undefined`.
pub record Body : Type 0 where
  pub id : Option ℕ
  pub access_token : Option String
  pub refresh_token : Option String
  pub expires_in : Option ℕ
  pub is_valid : Option Bool
  pub payload : Option Payload
  pub error : Option String
  pub message : Option Message
  pub error_code : Option String
  pub status_code : Option ℕ

abbrev pub empty_body : Body
empty_body = record {
  id = none;
  access_token = none;
  refresh_token = none;
  expires_in = none;
  is_valid = none;
  payload = none;
  error = none;
  message = none;
  error_code = none;
  status_code = none;
}

-- `HttpResponse`; `body` is its `data`.
pub record Response : Type 0 where
  pub status : ℕ
  pub body : Option Body

-- One constructor for each call of the auth service, with what its payload carries.
pub data Call : Type 0 where
  register_call : CreateUserParams → DeviceInfo → Call
  sign_in_call : String → String → DeviceInfo → Call
  refresh_call : String → DeviceInfo → Call
  logout_call : String → Call
  verify_email_call : String → Call
  update_user_call : String → ℕ → UpdateUserParams → Call
  me_call : String → Call
  verify_call : String → Call

abbrev pub path : Call → String
path (register_call params device) = "/register"
path (sign_in_call email password device) = "/sign-in"
path (refresh_call token device) = "/refresh"
path (logout_call token) = "/logout"
path (verify_email_call token) = "/verify-email"
path (update_user_call token id params) = "/user"
path (me_call token) = "/me"
path (verify_call token) = "/verify"

-- The client of Axios: a URL and a call, to an answer or a failed connection.
abbrev pub Sender : Type 0
Sender = String → Call → Result Response

-- JavaScript's truth of a field.
abbrev pub has_text : Option String → Bool
has_text none = false
has_text (some s) = not (s === "")

abbrev pub has_number : Option ℕ → Bool
has_number none = false
has_number (some n) = not (n == 0)

abbrev pub has_true : Option Bool → Bool
has_true none = false
has_true (some b) = b

abbrev pub has_message : Option Message → Bool
has_message none = false
has_message (some (text s)) = not (s === "")
has_message (some (texts ss)) = true

abbrev joined_after : String → String → List String → String
joined_after separator s [] = s
joined_after separator s (t ∷ ts) =
    String.◌++◌ s (String.◌++◌ separator (joined_after separator t ts))

-- `join(separator)`
unfoldable pub joined : String → List String → String
joined separator [] = ""
joined separator (s ∷ ss) = joined_after separator s ss

-- `message || other`, where the message becomes the text of an `Error`.
unfoldable pub message_or : Option Message → String → String
unfolding joined
message_or none other = other
message_or (some (text s)) other = if s === "" then other else s
message_or (some (texts ss)) other = joined "," ss

-- The JSON of the auth service's error answer.
abbrev pub body_of : ErrorResponse → Body
body_of answer = record empty_body {
  status_code = some answer.status_code;
  message = some (text answer.message);
  error_code = Option.map value answer.error_code;
}

abbrev pub response_of : ErrorResponse → Response
response_of answer = record { status = answer.status_code; body = some (body_of answer) }

abbrev pub tested : (Body → Bool) → Option Body → Bool
tested test none = false
tested test (some body) = test body

-- `isValidResponse`, with the test of the field.
unfoldable pub is_valid_response : Response → ℕ → (Body → Bool) → Bool
is_valid_response response expected test = response.status == expected && tested test response.body
