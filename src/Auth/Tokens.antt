-- ===== src/Auth/Tokens.antt =====
-- The refresh tokens of apps/auth-service/src/app/modules/auth/auth.service.ts: the private methods
-- that store, rotate and remove them. The random token id is an argument of the methods that draw one.
pub mod Limit
pub mod Issue
pub mod Renaming
use demo_t.Base.{
  ℕ, zero, suc, String, Bool, true, false, not, Option, none, some, List, [], ◌∷◌, map, ◌+◌, ◌-◌,
  ◌==◌, ◌===◌, ◌&&◌, leb, ltb, length, take, any, if◌then◌else◌,
}
use demo_t.Errors.Codes.{HttpStatus, ErrorCode}
use demo_t.Errors.Exceptions.{Exception, Result, ok, err, http_error}
use demo_t.Auth.Rows.{User, RefreshToken, DeviceInfo, is_token_of, role_name}
use demo_t.Auth.Action.{Action, ◌>>=◌, ◌>>◌, pure, throw, lift, try_catch}
use demo_t.Auth.Backend.{Crypto, Backend, Payload, access, refresh}
use demo_t.Auth.TokenConfig.{
  access_token_seconds, refresh_token_seconds, refresh_token_milliseconds,
  max_refresh_tokens_per_user,
}

pub record AuthTokens : Type 0 where
  pub access_token : String
  pub refresh_token : String
  pub expires_in : ℕ

-- `secret || other`: the empty text counts as missing.
abbrev pub or_else : Option String → Option String → Option String
or_else none other = other
or_else (some secret) other = if secret === "" then other else some secret

unfoldable pub get_refresh_token_secret : Crypto → Option String
get_refresh_token_secret c = or_else c.jwt_refresh_secret c.jwt_secret

-- `where: { user_id, expires_at: { gt: now } }`
abbrev pub is_active_token_of : ℕ → ℕ → RefreshToken → Bool
is_active_token_of user_id now t = t.user_id == user_id && ltb now t.expires_at

abbrev is_text : Option String → String → Bool
is_text none s = false
is_text (some t) s = t === s

-- `where: { user_id, AND: [{ user_agent }, { ip_address }] }`
abbrev pub is_device_token_of : ℕ → DeviceInfo → RefreshToken → Bool
is_device_token_of user_id device t =
    t.user_id == user_id
    && (is_text t.user_agent device.user_agent && is_text t.ip_address device.ip)

-- `where: { id: { in: tokenIds } }`
abbrev pub is_one_of : List RefreshToken → RefreshToken → Bool
is_one_of ts t = any (λ u. u.id === t.id) ts

abbrev ignore : {A : Type 0} → Action A → Action (Unit {0})
ignore m = do m >>= λ _. pure tt

-- What `enforceTokenLimit` removes of the active tokens, in the order of their last use.
abbrev pub tokens_to_remove : List RefreshToken → List RefreshToken
tokens_to_remove active_tokens =
    if leb max_refresh_tokens_per_user (length active_tokens)
    then take (length active_tokens - max_refresh_tokens_per_user + 1) active_tokens
    else []

abbrev pub new_token : ℕ → String → ℕ → String → DeviceInfo → RefreshToken
new_token now token_id user_id hashed device = record {
  id = token_id;
  user_id = user_id;
  token = hashed;
  user_agent = some device.user_agent;
  ip_address = some device.ip;
  expires_at = now + refresh_token_milliseconds;
  created_at = now;
  last_used_at = none;
}

abbrev pub rotated : ℕ → String → String → DeviceInfo → RefreshToken → RefreshToken
rotated now new_id hashed device t = record t {
  id = new_id;
  token = hashed;
  user_agent = some device.user_agent;
  ip_address = some device.ip;
  expires_at = now + refresh_token_milliseconds;
  last_used_at = some now;
}

abbrev pub used : ℕ → DeviceInfo → RefreshToken → RefreshToken
used now device t = record t {
  user_agent = some device.user_agent;
  ip_address = some device.ip;
  last_used_at = some now;
}

-- The type check of `verifyRefreshToken`; the result is the id of the token's row.
unfoldable pub refresh_token_id : Payload → Action String
refresh_token_id (access id email role) =
    throw (http_error HttpStatus.unauthorized ErrorCode.invalid_token)
refresh_token_id (refresh user_id token_id type) =
    if type === "refresh"
    then pure token_id
    else throw (http_error HttpStatus.unauthorized ErrorCode.invalid_token)

module _ (c : Crypto) (b : Backend) (now : ℕ) where
  -- The ids travel with their rows.
  unfoldable pub bulk_delete_tokens : List RefreshToken → Action ℕ
  bulk_delete_tokens [] = pure 0
  bulk_delete_tokens (t ∷ ts) = b.delete_tokens (is_one_of (t ∷ ts))

  -- The `catch` only logs and throws on.
  unfoldable pub enforce_token_limit : ℕ → Action (Unit {0})
  enforce_token_limit user_id = do
    active_tokens ← b.find_tokens_by_use (is_active_token_of user_id now)
    ignore (bulk_delete_tokens (tokens_to_remove active_tokens))

  unfoldable pub remove_device_tokens : ℕ → DeviceInfo → Action (Unit {0})
  remove_device_tokens user_id device = do
    existing_tokens ← b.find_tokens (is_device_token_of user_id device)
    ignore (bulk_delete_tokens existing_tokens)

  -- The `catch` logs and goes on.
  unfoldable pub cleanup_existing_device_token : ℕ → DeviceInfo → Action (Unit {0})
  cleanup_existing_device_token user_id device =
      try_catch (remove_device_tokens user_id device) (λ _. pure tt)

  abbrev pub sign_access : User → Action String
  sign_access user = lift (
      c.sign c.jwt_secret access_token_seconds now
        (access user.id user.email (role_name user.role)))

  abbrev pub sign_refresh : User → String → Action String
  sign_refresh user token_id = lift (
      c.sign (get_refresh_token_secret c) refresh_token_seconds now
        (refresh user.id token_id "refresh"))

  unfoldable pub generate_token_pair : String → User → DeviceInfo → Action AuthTokens
  generate_token_pair token_id user device = do
    cleanup_existing_device_token user.id device
    enforce_token_limit user.id
    access_token ← sign_access user
    refresh_token ← sign_refresh user token_id
    hashed ← lift (c.hash refresh_token 10)
    b.create_token (new_token now token_id user.id hashed device)
    pure (record {
      access_token = access_token;
      refresh_token = refresh_token;
      expires_in = access_token_seconds;
    })

  unfoldable pub rotate_tokens : String → User → String → DeviceInfo → Action AuthTokens
  rotate_tokens new_id user old_id device = do
    access_token ← sign_access user
    refresh_token ← sign_refresh user new_id
    hashed ← lift (c.hash refresh_token 10)
    b.update_token old_id (rotated now new_id hashed device)
    pure (record {
      access_token = access_token;
      refresh_token = refresh_token;
      expires_in = access_token_seconds;
    })

  unfoldable pub verify_refresh_token : String → Action String
  verify_refresh_token refresh_token =
      lift (c.verify (get_refresh_token_secret c) now refresh_token) >>= refresh_token_id

  unfoldable pub update_token_usage : String → DeviceInfo → Action (Unit {0})
  update_token_usage token_id device = b.update_token token_id (used now device)

  unfoldable pub cleanup_token : String → Action (Unit {0})
  cleanup_token token_id = b.delete_token token_id

  -- The `catch` only logs and throws on.
  unfoldable pub revoke_all_refresh_tokens : ℕ → Action ℕ
  revoke_all_refresh_tokens user_id = b.delete_tokens (is_token_of user_id)
