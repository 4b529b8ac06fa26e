-- ===== src/Auth/Tests.antt =====
-- The auth service on a small database: the rows, the crypto and the arguments.
mod Sessions
mod Accounts
mod Jobs
use demo_t.Base.{
  ℕ, String, Bool, true, false, none, some, [], ◌∷◌, ◌≡◌, ◌↔◌, refl, ◌⊎◌, ◌===◌, ◌≤◌, arith, length,
  keep, find, drop_where, change, if◌then◌else◌,
}
use demo_t.Errors.Codes.{HttpStatus, ErrorCode}
use demo_t.Errors.Exceptions.{named, ok, err, http_error}
use demo_t.Auth.Rows.{
  Role, admin, client, User, RefreshToken, World, DeviceInfo, is_user, is_token_of,
}
use demo_t.Auth.Action.{Post}
use demo_t.Auth.Backend.{Payload, Crypto, new_user, touched}
use demo_t.Auth.Backend.InMemory.{in_memory}
use demo_t.Auth.Backend.InMemory.Lawful.{in_memory-IsBackend}
use demo_t.Auth.TokenConfig.{max_refresh_tokens_per_user}
use demo_t.Auth.Permission.{UserDto, to_user_dto, allowed, can_user_perform_action_on_user}
use demo_t.Auth.Permission.Rules.{MayActOn, can_user_perform_action_on_user_iff}
use demo_t.Auth.Tokens.{is_active_token_of, enforce_token_limit}
use demo_t.Auth.Tokens.Limit.{HasRoom, enforce_token_limit-HasRoom}
use demo_t.Auth.Tokens.Issue.{Signs, IsIssued}
use demo_t.Auth.Sessions.{sign_in, refresh_token, logout_all_devices, verify_token}
use demo_t.Auth.Sessions.SignIn.{MaySignIn, sign_in-establishes}
use demo_t.Auth.Sessions.Rotation.{refresh_token-theft, refresh_token-single_use}
use demo_t.Auth.Sessions.Success.{IsRotated, sign_in-succeeds, refresh_token-succeeds}
use demo_t.Auth.Sessions.Authority.{HasAuthority}
use demo_t.Auth.Sessions.Logout.{logout_all_devices-authorised}
use demo_t.Auth.Sessions.Verifying.{IsAnswer, verify_token-IsAnswer}
use demo_t.Auth.Users.{
  CreateUserParams, UpdateUserParams, create_user, updated, update_user, soft_delete_user,
  hard_delete_user, to_user_profile,
}
use demo_t.Auth.Users.Deletion.{
  soft_deleted, hard_deleted, soft_delete_user-authorised, hard_delete_user-authorised,
}
use demo_t.Auth.Users.Updates.{MayWrite, update_user-authorised}
use demo_t.Auth.Users.Creation.{Frees, user_data, create_user-Frees}
use demo_t.Auth.Cleanup.{cleanup_expired_tokens, daily_cleanup}
use demo_t.Auth.Cleanup.Completeness.{IsSweep, cleanup_expired_tokens-sweeps, daily_cleanup-sweeps}
use demo_t.Auth.EmailVerification.{verify_email, parse_int, get_me, register}
use demo_t.Auth.EmailVerification.Decimal.{to_string, parse_int-to_string, to_string-text}
use demo_t.Errors.Filters.{get_error_response}
use demo_t.Auth.EmailVerification.Journey.{IsVerified, verify_email-succeeds}
use demo_t.Auth.EmailVerification.SingleUse.{
  MayVerify, marked, consumed, verify_email-establishes, verify_email-single_use,
}

abbrev pub person : ℕ → String → Role → Bool → User
person id email role is_verified = record {
  id = id;
  name = none;
  password = "secret";
  email = email;
  role = role;
  settings = "{}";
  is_active = true;
  deleted_at = none;
  original_email = some email;
  email_verified = is_verified;
  email_verified_at = none;
  created_at = 0;
  updated_at = 0;
}

abbrev pub ann : User
ann = person 1 "ann@shop" admin true

abbrev pub bob : User
bob = person 2 "bob@shop" client true

abbrev pub eve : User
eve = person 3 "eve@shop" client false

abbrev pub phone : DeviceInfo
phone = record { user_agent = "phone"; ip = "10.0.0.1" }

abbrev pub row : String → ℕ → String → ℕ → RefreshToken
row id user_id token expires_at = record {
  id = id;
  user_id = user_id;
  token = token;
  user_agent = none;
  ip_address = none;
  expires_at = expires_at;
  created_at = 0;
  last_used_at = none;
}

abbrev pub ann_row : RefreshToken
ann_row = row "r1" 1 "refresh" 5000

-- Ann's token r1, two tokens of Bob, one of them expired, and Eve's verification token.
abbrev pub shop : World
shop = record {
  users = ann ∷ bob ∷ eve ∷ [];
  tokens = ann_row ∷ row "r2" 2 "other" 5000 ∷ row "r3" 2 "old" 50 ∷ [];
  redis = record { key = "email:verification:v3"; value = "3"; expires_at = 9000 } ∷ [];
  events = [];
}

-- The same, but r1 has been rotated behind Ann's back.
abbrev pub stolen_row : RefreshToken
stolen_row = row "r1" 1 "rotated" 5000

abbrev pub robbed : World
robbed = record shop { tokens = stolen_row ∷ row "r2" 2 "other" 5000 ∷ [] }

-- Two texts stand for Ann's access token and for her refresh token; a hash is the text itself.
abbrev pub toy : Crypto
toy = record {
  sign = λ _ _ _ p. elim p [
    | Payload.access _ _ _ ↦ ok "access"
    | Payload.refresh _ _ _ ↦ ok "refresh"
  ];
  verify = λ _ _ t.
      if t === "access"
      then ok (Payload.access 1 "ann@shop" "ADMIN")
      else if t === "refresh"
      then ok (Payload.refresh 1 "r1" "refresh")
      else err (named "JsonWebTokenError" "invalid token");
  hash = λ text _. ok text;
  compare = λ text hash. ok (text === hash);
  lower = λ text. text;
  jwt_secret = some "secret";
  jwt_refresh_secret = none;
}

abbrev pub ann_signs : Signs toy 100 "r9" ann
ann_signs = record {
  access_token = "access";
  refresh_token = "refresh";
  hashed = "refresh";
  signs_access = refl;
  signs_refresh = refl;
  hashes = refl;
}

abbrev pub dan : CreateUserParams
dan = record { email = "dan@shop"; password = "secret"; name = none }

abbrev pub new_name : UpdateUserParams
new_name = record { email = none; name = some "Bob"; email_verified = none }
