-- ===== src/Auth/EmailVerification.antt =====
-- Email verification: apps/auth-service/src/app/modules/auth/services/email-verification-token.service.ts,
-- `verifyEmail` of auth.service.ts, and the methods of auth.controller.ts that do more than hand their
-- arguments on.
pub mod SingleUse
pub mod Known
pub mod Journey
pub mod Profile
pub mod Decimal
use Prim.Native.String
use demo_t.Base.{
  ℕ, zero, suc, String, Bool, true, false, not, Option, none, some, List, [], ◌∷◌, ◌==◌, ◌===◌,
  ◌&&◌, ◌+◌, ◌-◌, ◌*◌, ◌/◌, ◌%◌, leb, codes, if◌then◌else◌,
}
use demo_t.Errors.Codes.{HttpStatus, ErrorCode}
use demo_t.Errors.Exceptions.{Exception, plain, ok, err, http_error}
use demo_t.Auth.Rows.{User, UserRegistrationInitiatedEvent, by_id}
use demo_t.Auth.Action.{Action, ◌>>=◌, ◌>>◌, pure, throw, lift, try_catch}
use demo_t.Auth.Backend.{Crypto, Backend, Payload}
use demo_t.Auth.TokenConfig.{token_prefix, email_verification_seconds, email_verification_minutes}
use demo_t.Auth.Permission.{UserDto, to_user_dto}
use demo_t.Auth.Sessions.{Verification, valid, invalid, verify_token}
use demo_t.Auth.Users.{CreateUserParams, UserProfile, create_user, get_user_profile, require_found}

-- `${TOKEN_PREFIX}${token}`
abbrev pub redis_key : String → String
redis_key token = String.◌++◌ token_prefix token

pub record VerifyEmailResponse : Type 0 where
  pub message : String
  pub email : String
  pub verified_at : Option ℕ

-- `if (!userId)`: a missing entry and the empty text are refused alike.
unfoldable pub require_entry : Option String → Action String
require_entry none = throw (http_error HttpStatus.bad_request ErrorCode.verification_token_invalid)
require_entry (some user_id) =
    if user_id === ""
    then throw (http_error HttpStatus.bad_request ErrorCode.verification_token_invalid)
    else pure user_id

unfoldable pub require_number : Option ℕ → Action ℕ
require_number none = throw (http_error HttpStatus.bad_request ErrorCode.invalid_user_id)
require_number (some n) = pure n

unfoldable pub require_unverified : User → Action (Unit {0})
require_unverified u =
    if not u.is_active
    then throw (http_error HttpStatus.bad_request ErrorCode.user_not_active)
    else if u.email_verified
    then throw (http_error HttpStatus.bad_request ErrorCode.email_already_verified)
    else pure tt

abbrev pub verified : ℕ → User → User
verified now u = record u { email_verified = true; email_verified_at = some now }

-- The leading decimal digits of a text, and how `parseInt` reads a text with no sign or blank before
-- them: `none` is `NaN`.
unfoldable pub digits_from : ℕ → List ℕ → ℕ
digits_from n [] = n
digits_from n (c ∷ s) = if leb b'0' c && leb c b'9' then digits_from (n * 10 + (c - b'0')) s else n

unfoldable pub parse_codes : List ℕ → Option ℕ
parse_codes [] = none
parse_codes (c ∷ s) = if leb b'0' c && leb c b'9' then some (digits_from 0 (c ∷ s)) else none

unfoldable pub parse_int : String → Option ℕ
unfolding digits_from parse_codes
parse_int s = parse_codes (codes s)

module _ (b : Backend) (now : ℕ) where
  unfoldable pub generate_verification_token : String → String → Action String
  generate_verification_token token user_id = do
    b.redis_setex (redis_key token) email_verification_seconds user_id now
    pure token

  unfoldable pub verify_stored_token : String → Action (Option String)
  verify_stored_token token = b.redis_get (redis_key token) now

  unfoldable pub invalidate_token : String → Action (Unit {0})
  invalidate_token token = b.redis_del (redis_key token)

  unfoldable pub verify_email : String → Action VerifyEmailResponse
  verify_email token = do
    entry ← verify_stored_token token
    user_id ← require_entry entry
    id ← require_number (parse_int user_id)
    found ← b.find_user (by_id id)
    user ← require_found found
    require_unverified user
    updated ← b.update_user id (verified now) now
    invalidate_token token
    pure (record {
      message = "Email verified successfully";
      email = updated.email;
      verified_at = updated.email_verified_at;
    })

-- `EmailServiceClient.emitUserRegistrationInitiated`: nothing waits for the broker, so the request goes on
-- also where the event is lost.
unfoldable pub emit_user_registration_initiated :
    Backend → UserRegistrationInitiatedEvent → Action (Unit {0})
emit_user_registration_initiated b event = try_catch (b.emit event) (λ _. pure tt)

-- `toString` of a number is the standard library's; it is an argument of `register`.
module _ (c : Crypto) (b : Backend) (to_string : ℕ → String) (now : ℕ) where
  -- `AuthController.register`, with the random verification token.
  unfoldable pub register : String → CreateUserParams → Action User
  register token params = do
    user ← create_user c b now params
    verification_token ← generate_verification_token b now token (to_string user.id)
    emit_user_registration_initiated b (record {
      email = user.email;
      name = user.name;
      user_id = to_string user.id;
      verification_token = verification_token;
      timestamp = now;
      expiration_minutes = email_verification_minutes;
    })
    pure user

-- `verifiedToken.payload.id`: reading `id` of an `undefined` payload throws a `TypeError`.
unfoldable pub payload_id : Verification → Action ℕ
payload_id (valid (Payload.access id email role)) = pure id
payload_id (valid (Payload.refresh user_id token_id type)) =
    throw (Exception.named "PrismaClientValidationError" "")
payload_id (invalid e) =
    throw (Exception.named "TypeError" "Cannot read properties of undefined (reading 'id')")

module _ (c : Crypto) (b : Backend) (now : ℕ) where
  -- `AuthController.getMe`.
  unfoldable pub get_me : String → Action UserProfile
  get_me access_token = do
    verification ← verify_token c b now access_token
    user_id ← payload_id verification
    get_user_profile c b now user_id
