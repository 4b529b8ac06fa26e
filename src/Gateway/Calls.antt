-- ===== src/Gateway/Calls.antt =====
-- The methods of apps/server-nest/src/app/modules/auth/auth.service.ts that hand a request on to the auth
-- service. Their `catch` only logs and throws on, unless it is written out.
use Prim.Native.String
use demo_t.Base.{ℕ, String, Bool, true, false, Option, none, some, ◌==◌, ◌===◌, if◌then◌else◌}
use demo_t.Errors.Codes.{HttpStatus, ErrorCode, number, value}
use demo_t.Errors.Exceptions.{Exception, http, named, database, plain, unknown, Result, ok, err}
use demo_t.Auth.Rows.{DeviceInfo}
use demo_t.Auth.Users.{CreateUserParams, UpdateUserParams}
use demo_t.Gateway.Http.{
  Message, text, texts, Body, Response, Call, register_call, sign_in_call, refresh_call,
  logout_call, verify_email_call, update_user_call, me_call, path, Sender, has_text, has_number,
  has_message, joined, message_or, is_valid_response,
}

infixl 5 ◌>>=◌
abbrev pub ◌>>=◌ : {A B : Type 0} → Result A → (A → Result B) → Result B
ok a >>= f = f a
err e >>= f = err e

-- `response.data?.message`
abbrev pub body_message : Option Body → Option Message
body_message none = none
body_message (some body) = body.message

abbrev pub body_error_code : Option Body → Option String
body_error_code none = none
body_error_code (some body) = body.error_code

-- The `message` of `new BadRequestException(message || other)`. For an array it is the name of the class in
-- words; the array itself stays in the body of the exception, which is left out.
unfoldable pub bad_request_message : Option Message → String → String
bad_request_message none other = other
bad_request_message (some (text s)) other = if s === "" then other else s
bad_request_message (some (texts ss)) other = "Bad Request Exception"

-- `errorResponse?.statusCode || response.status`
abbrev or_number : Option ℕ → ℕ → ℕ
or_number none other = other
or_number (some n) other = if n == 0 then other else n

abbrev status_or : Option Body → ℕ → ℕ
status_or none status = status
status_or (some body) status = or_number body.status_code status

-- The fallback of `registerUser` for an answer without a code.
unfoldable pub registration_error : Option Message → Exception
unfolding joined
registration_error none = plain "Registration failed"
registration_error (some (text s)) = plain (if s === "" then "Registration failed" else s)
registration_error (some (texts ss)) = plain (joined ", " ss)

-- A code, if there is one, or the fallback.
code_or : Option String → ℕ → Exception → Exception
code_or none status fallback = fallback
code_or (some code) status fallback = if code === "" then fallback else http status code

unfoldable pub refused_registration : Response → Exception
unfolding registration_error code_or
refused_registration response =
    code_or (body_error_code response.body) (status_or response.body response.status)
      (registration_error (body_message response.body))

present : Option Body → Exception → Result Body
present none e = err e
present (some body) e = ok body

-- An answer that is valid, or an exception. The type of `response.data` says that it is there then.
unfoldable pub body_or_throw : Bool → Response → Exception → Result Body
unfolding present
body_or_throw true response e = present response.body e
body_or_throw false response e = err e

-- `error.message || other`
unfoldable pub error_message_or : Exception → String → String
error_message_or (http status message) other = if message === "" then other else message
error_message_or (named name message) other = if message === "" then other else message
error_message_or (database code message) other = if message === "" then other else message
error_message_or (plain message) other = if message === "" then other else message
error_message_or unknown other = other

-- The `catch` of `verifyEmail` and `updateUser`: all but a `BadRequestException` becomes one.
unfoldable pub as_bad_request : String → Exception → Exception
unfolding error_message_or
as_bad_request other (http status message) =
    if status == number HttpStatus.bad_request
    then http status message
    else http (number HttpStatus.bad_request) (error_message_or (http status message) other)
as_bad_request other e = http (number HttpStatus.bad_request) (error_message_or e other)

abbrev pub mapped : {A : Type 0} → (Exception → Exception) → Result A → Result A
mapped f (ok a) = ok a
mapped f (err e) = err (f e)

module _ (send : Sender) (auth_service_url : String) where
  abbrev pub request : Call → Result Response
  request call = send (String.◌++◌ auth_service_url (path call)) call

  unfoldable pub register_user : CreateUserParams → DeviceInfo → Result Body
  register_user params device = request (register_call params device) >>= λ response.
      body_or_throw (is_valid_response response 201 (λ body. has_number body.id)) response
        (refused_registration response)

  unfoldable pub sign_in : String → String → DeviceInfo → Result Body
  sign_in email password device = request (sign_in_call email password device) >>= λ response.
      body_or_throw (is_valid_response response 200 (λ body. has_text body.access_token)) response
        (plain (message_or (body_message response.body) "Invalid credentials"))

  unfoldable pub refresh_token : String → DeviceInfo → Result Body
  refresh_token token device = request (refresh_call token device) >>= λ response.
      body_or_throw (is_valid_response response 200 (λ body. has_text body.access_token)) response
        (plain (message_or (body_message response.body) "Invalid refresh token"))

  unfoldable pub logout : String → Result Bool
  logout token = request (logout_call token) >>= λ response.
      body_or_throw (is_valid_response response 200 (λ body. has_message body.message)) response
        (plain (message_or (body_message response.body) "Logout failed"))
      >>= λ _. ok true

  unfoldable pub verify_email : String → Result (Unit {0})
  verify_email token = mapped (as_bad_request "Email verification failed") (
      request (verify_email_call token) >>= λ response.
      body_or_throw (is_valid_response response 200 (λ body. has_message body.message)) response (
        http (number HttpStatus.bad_request)
          (bad_request_message (body_message response.body) "Email verification failed"))
      >>= λ _. ok tt)

  unfoldable pub update_user : String → ℕ → UpdateUserParams → Result Body
  update_user access_token target_user_id params =
      mapped (as_bad_request (value ErrorCode.user_update_failed)) (
        request (update_user_call access_token target_user_id params) >>= λ response.
        body_or_throw (is_valid_response response 200 (λ body. has_number body.id)) response
          (http (number HttpStatus.bad_request) (value ErrorCode.user_update_failed)))

  -- The answer's status is not read.
  unfoldable pub get_user_profile : String → Result (Option Body)
  get_user_profile access_token = request (me_call access_token) >>= λ response. ok response.body
