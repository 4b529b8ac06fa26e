-- ===== src/Auth/Sessions.antt =====
-- The session methods of apps/auth-service/src/app/modules/auth/auth.service.ts.
pub mod Guards
pub mod SignIn
pub mod Rotation
pub mod Known
pub mod Success
pub mod Verifying
pub mod Authority
pub mod Logout
use demo_t.Base.{
  ℕ, String, Bool, true, false, not, Option, none, some, ◌==◌, ◌===◌, ◌||◌, ltb, if◌then◌else◌,
}
use demo_t.Errors.Codes.{HttpStatus, ErrorCode, number}
use demo_t.Errors.Exceptions.{Exception, http, named, database, plain, unknown, ok, err, http_error}
use demo_t.Auth.Rows.{User, RefreshToken, DeviceInfo, by_id, by_email}
use demo_t.Auth.Action.{Action, ◌>>=◌, ◌>>◌, pure, throw, lift, try_catch}
use demo_t.Auth.Backend.{Crypto, Backend, Payload}
use demo_t.Auth.Permission.{
  key_of, Authorization, allowed, denied, is_jwt_error, refused_as, extract_user_from_access_token,
  can_user_perform_action_on_user,
}
use demo_t.Auth.Tokens.{
  AuthTokens, verify_refresh_token, cleanup_token, revoke_all_refresh_tokens, update_token_usage,
  rotate_tokens, generate_token_pair,
}

-- `new ForbiddenException(reason)` where the check denies.
unfoldable pub require_allowed : Authorization → Action (Unit {0})
require_allowed allowed = pure tt
require_allowed (denied reason) = throw (http (number HttpStatus.forbidden) reason)

-- `if (!targetUser || !targetUser.is_active) throw new NotFoundException(...)`
unfoldable pub require_active : Option User → Action User
require_active none = throw (http_error HttpStatus.not_found ErrorCode.user_not_found)
require_active (some u) =
    if u.is_active then pure u else throw (http_error HttpStatus.not_found ErrorCode.user_not_found)

-- The `catch` of `revokeRefreshToken`, which also takes the service's own `UnauthorizedException`.
unfoldable pub revoke_refused : Exception → Exception
revoke_refused (http status message) =
    if status == number HttpStatus.unauthorized
    then http_error HttpStatus.unauthorized ErrorCode.refresh_token_invalid
    else http status message
revoke_refused (named name message) =
    refused_as ErrorCode.refresh_token_invalid (named name message)
revoke_refused e = e

-- The answer of `verifyToken`.
pub data Verification : Type 0 where
  valid : Payload → Verification
  invalid : Exception → Verification

pub record LogoutAllResponse : Type 0 where
  pub message : String
  pub devices_logged_out : ℕ
  pub timestamp : ℕ

module _ (c : Crypto) (b : Backend) (now : ℕ) where
  unfoldable pub check_password : String → User → Action (Unit {0})
  check_password password user = do
    is_match ← lift (c.compare password user.password)
    if is_match
        then pure tt
        else throw (http_error HttpStatus.unauthorized ErrorCode.invalid_credentials)

  unfoldable pub require_verified : User → Action (Unit {0})
  require_verified user =
      if user.email_verified
      then pure tt
      else throw (http_error HttpStatus.forbidden ErrorCode.email_not_verified)

  unfoldable pub sign_in : String → String → String → DeviceInfo → Action AuthTokens
  sign_in token_id email password device = do
    found ← b.find_user (by_email (c.lower email))
    user ← require_active found
    require_verified user
    check_password password user
    generate_token_pair c b now token_id user device

  -- A stored row that no presented token matches is taken for a theft: every session ends.
  unfoldable pub check_stored : String → RefreshToken → Action (Unit {0})
  check_stored refresh_token stored = do
    is_valid ← lift (c.compare refresh_token stored.token)
    if is_valid
        then pure tt
        else (revoke_all_refresh_tokens c b now stored.user_id >>= λ _.
            throw (http_error HttpStatus.unauthorized ErrorCode.refresh_token_invalid))

  unfoldable pub check_expiry : String → RefreshToken → Action (Unit {0})
  check_expiry token_id stored =
      if ltb stored.expires_at now
      then (cleanup_token c b now token_id
          >> throw (http_error HttpStatus.unauthorized ErrorCode.token_expired))
      else pure tt

  unfoldable pub require_stored : Option RefreshToken → Action RefreshToken
  require_stored none = throw (http_error HttpStatus.unauthorized ErrorCode.refresh_token_not_found)
  require_stored (some t) = pure t

  unfoldable pub require_owner : Option User → Action User
  require_owner none = throw (http_error HttpStatus.forbidden ErrorCode.user_no_longer_exists)
  require_owner (some u) = pure u

  -- The body of the `try` of `refreshToken`. Prisma's `include: { user: true }` reads the owner.
  unfoldable pub refresh_body : String → String → DeviceInfo → Action AuthTokens
  refresh_body new_id refresh_token device = do
    token_id ← verify_refresh_token c b now refresh_token
    found ← b.find_token token_id
    stored ← require_stored found
    owner ← b.find_user (by_id stored.user_id)
    check_expiry token_id stored
    check_stored refresh_token stored
    user ← require_owner owner
    update_token_usage c b now token_id device
    rotate_tokens c b now new_id user token_id device

  unfoldable pub refresh_token : String → String → DeviceInfo → Action AuthTokens
  refresh_token new_id token device =
      try_catch (refresh_body new_id token device)
        (λ e. throw (refused_as ErrorCode.refresh_token_invalid e))

  unfoldable pub revoke_refresh_token : String → Action (Unit {0})
  revoke_refresh_token token =
      try_catch (do token_id ← verify_refresh_token c b now token; cleanup_token c b now token_id)
        (λ e. throw (revoke_refused e))

  -- The check looks for the row only; it does not read `is_active`.
  unfoldable pub require_existing : Payload → Option User → Action Verification
  require_existing payload none =
      throw (http_error HttpStatus.forbidden ErrorCode.user_no_longer_exists)
  require_existing payload (some u) = pure (valid payload)

  -- The body of the `try` of `verifyToken`.
  unfoldable pub verify_body : String → Action Verification
  verify_body token = do
    payload ← lift (c.verify c.jwt_secret now token)
    found ← b.find_user (key_of payload)
    require_existing payload found

  unfoldable pub verify_token : String → Action Verification
  verify_token token = try_catch (verify_body token) (λ e. pure (invalid e))

  unfoldable pub logout_all_devices : String → ℕ → Action LogoutAllResponse
  logout_all_devices access_token target_user_id = do
    current ← extract_user_from_access_token c b now access_token
    found ← b.find_user (by_id target_user_id)
    target ← require_active found
    require_allowed (can_user_perform_action_on_user current target)
    revoked ← revoke_all_refresh_tokens c b now target_user_id
    pure (record {
      message = "Logged out from all devices successfully";
      devices_logged_out = revoked;
      timestamp = now;
    })

  -- The `catch` only logs and throws on.
  unfoldable pub cleanup_expired_tokens : Action ℕ
  cleanup_expired_tokens = b.delete_tokens (λ t. ltb t.expires_at now)
