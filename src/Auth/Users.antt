-- ===== src/Auth/Users.antt =====
-- The account methods of apps/auth-service/src/app/modules/auth/auth.service.ts, and
-- apps/auth-service/src/app/modules/auth/services/user-deletion.service.ts.
pub mod Deletion
pub mod Updates
pub mod Creation
use demo_t.Base.{
  ℕ, String, Bool, true, false, not, Option, none, some, ◌-◌, ◌&&◌, is_some, ltb, if◌then◌else◌,
}
use demo_t.Errors.Codes.{HttpStatus, ErrorCode}
use demo_t.Errors.Exceptions.{Exception, ok, err, http_error}
use demo_t.Auth.Rows.{User, Role, by_id, by_id_active, by_email, is_token_of}
use demo_t.Auth.Action.{Action, ◌>>=◌, ◌>>◌, pure, throw, lift}
use demo_t.Auth.Backend.{Crypto, Backend, UserData}
use demo_t.Auth.TokenConfig.{email_verification_milliseconds}
use demo_t.Auth.Permission.{
  UserDto, is_admin, extract_user_from_access_token, can_user_perform_action_on_user,
}
use demo_t.Auth.Sessions.{require_allowed, require_active}

-- `UserProfileDto` of libs/utils-nest/src/common/dto/user-profile.dto.ts.
pub record UserProfile : Type 0 where
  pub id : ℕ
  pub email : String
  pub name : Option String
  pub role : Role
  pub settings : String
  pub email_verified : Bool

abbrev pub to_user_profile : User → UserProfile
to_user_profile u = record {
  id = u.id;
  email = u.email;
  name = u.name;
  role = u.role;
  settings = u.settings;
  email_verified = u.email_verified;
}

-- `ApiCreateUserParams` of libs/models/src/api-auth/api-auth.ts.
pub record CreateUserParams : Type 0 where
  pub email : String
  pub password : String
  pub name : Option String

-- `ApiUpdateUserBasicParams` of the same file; `none` is `undefined`.
pub record UpdateUserParams : Type 0 where
  pub email : Option String
  pub name : Option String
  pub email_verified : Option Bool

abbrev or_kept {ℓ} : {A : Type ℓ} → Option A → A → A
or_kept none a = a
or_kept (some b) a = b

abbrev or_kept? {ℓ} : {A : Type ℓ} → Option A → Option A → Option A
or_kept? none a = a
or_kept? (some b) a = some b

abbrev lowered : (String → String) → Option String → Option String
lowered lower none = none
lowered lower (some email) = some (lower email)

-- The columns that `updateUser` writes.
unfoldable pub updated : (String → String) → UpdateUserParams → User → User
updated lower params u = record u {
  email = or_kept (lowered lower params.email) u.email;
  name = or_kept? params.name u.name;
  email_verified = or_kept params.email_verified u.email_verified;
}

unfoldable pub require_found : Option User → Action User
require_found none = throw (http_error HttpStatus.not_found ErrorCode.user_not_found)
require_found (some u) = pure u

-- Only admins write `email_verified`.
unfoldable pub may_write_verified : UserDto → UpdateUserParams → Action (Unit {0})
may_write_verified current params =
    if is_some params.email_verified && not (is_admin current.role)
    then throw (http_error HttpStatus.forbidden ErrorCode.permission_denied)
    else pure tt

abbrev pub is_expired_unverified : ℕ → User → Bool
is_expired_unverified now u =
    not u.email_verified && ltb u.created_at (now - email_verification_milliseconds)

abbrev pub deactivated : User → User
deactivated u = record u { is_active = false }

module _ (c : Crypto) (b : Backend) (now : ℕ) where
  -- What becomes of the row that holds the wanted email.
  unfoldable pub replace_unverified : Option User → Action (Unit {0})
  replace_unverified none = pure tt
  replace_unverified (some u) =
      if u.email_verified
      then throw (http_error HttpStatus.conflict ErrorCode.email_already_exists)
      else if ltb u.created_at (now - email_verification_milliseconds)
      then b.delete_user u.id
      else throw (http_error HttpStatus.conflict ErrorCode.unverified_account_exists)

  unfoldable pub check_if_user_unverified_and_delete : String → Action (Unit {0})
  check_if_user_unverified_and_delete email = do
    found ← b.find_user (by_email email)
    replace_unverified found

  unfoldable pub create_user : CreateUserParams → Action User
  create_user params = do
    hashed ← lift (c.hash params.password 10)
    check_if_user_unverified_and_delete (c.lower params.email)
    b.create_user
        (record {
          email = c.lower params.email;
          password = hashed;
          name = params.name;
          original_email = some (c.lower params.email);
        })
        now

  unfoldable pub update_user : String → ℕ → UpdateUserParams → Action UserProfile
  update_user access_token target_user_id params = do
    current ← extract_user_from_access_token c b now access_token
    found ← b.find_user (by_id target_user_id)
    target ← require_active found
    require_allowed (can_user_perform_action_on_user current target)
    may_write_verified current params
    user ← b.update_user target_user_id (updated c.lower params) now
    pure (to_user_profile user)

  unfoldable pub get_user_profile : ℕ → Action UserProfile
  get_user_profile user_id = do
    found ← b.find_user (by_id_active user_id)
    user ← require_found found
    pure (to_user_profile user)

  -- The monthly job. The `catch` only logs and throws on.
  unfoldable pub cleanup_unverified_users : Action ℕ
  cleanup_unverified_users = b.delete_users (is_expired_unverified now)

  -- The body of the transaction of `softDeleteUser`.
  unfoldable pub deactivate : ℕ → Action User
  deactivate target_user_id = b.delete_tokens (is_token_of target_user_id) >>= λ _.
      b.update_user target_user_id deactivated now

  unfoldable pub soft_delete_user : String → ℕ → Action User
  soft_delete_user access_token target_user_id = do
    current ← extract_user_from_access_token c b now access_token
    found ← b.find_user (by_id target_user_id)
    target ← require_active found
    require_allowed (can_user_perform_action_on_user current target)
    b.transaction (deactivate target_user_id)

  unfoldable pub hard_delete_user : String → ℕ → Action (Unit {0})
  hard_delete_user access_token target_user_id = do
    current ← extract_user_from_access_token c b now access_token
    found ← b.find_user (by_id target_user_id)
    target ← require_found found
    require_allowed (can_user_perform_action_on_user current target)
    b.delete_user target_user_id
