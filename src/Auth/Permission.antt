-- ===== src/Auth/Permission.antt =====
-- Who may act on whom:
-- apps/auth-service/src/app/modules/auth/services/user-operation-permission.service.ts, and the
-- identity that an access token proves, apps/auth-service/src/app/common/utils/jwt-user.util.ts.
pub mod Rules
pub mod Identity
use demo_t.Base.{
  ℕ, String, Bool, true, false, not, Option, none, some, ◌==◌, ◌===◌, ◌&&◌, ◌||◌, if◌then◌else◌,
}
use demo_t.Errors.Codes.{HttpStatus, ErrorCode}
use demo_t.Errors.Exceptions.{Exception, http, named, ok, err, http_error}
use demo_t.Auth.Rows.{Role, admin, manager, client, role_name, User, UserKey, by_id, missing_id}
use demo_t.Auth.Action.{Action, ◌>>=◌, pure, throw, lift, try_catch}
use demo_t.Auth.Backend.{Crypto, Backend, Payload, access, refresh}

-- The fields of `UserDto` that the services read.
pub record UserDto : Type 0 where
  pub id : ℕ
  pub name : Option String
  pub email : String
  pub role : Role

abbrev pub to_user_dto : User → UserDto
to_user_dto u = record { id = u.id; name = u.name; email = u.email; role = u.role }

pub data Authorization : Type 0 where
  allowed : Authorization
  denied : String → Authorization

abbrev pub is_admin : Role → Bool
is_admin admin = true
is_admin _ = false

abbrev pub is_manager : Role → Bool
is_manager manager = true
is_manager _ = false

abbrev pub is_client : Role → Bool
is_client client = true
is_client _ = false

-- `canUserPerformActionOnUser`; of the target the id and the role are read.
unfoldable pub can_user_perform_action_on_user : UserDto → User → Authorization
can_user_perform_action_on_user current target =
    if current.id == target.id
    then allowed
    else if is_admin current.role
    then (if is_admin target.role
        then denied "Admins cannot perform actions on other admin accounts"
        else allowed)
    else if is_manager current.role && is_client target.role
    then allowed
    else denied "Insufficient permissions to perform this action on the target user"

-- `payload.id`, `payload.email` and `payload.role` of a verified token.
abbrev pub key_of : Payload → UserKey
key_of (access id email role) = by_id id
key_of (refresh user_id token_id type) = missing_id

abbrev pub agrees : Payload → User → Bool
agrees (access id email role) u = u.email === email && role_name u.role === role
agrees (refresh user_id token_id type) u = false

-- The checks on the row that the token names.
unfoldable pub check_user : Payload → Option User → Action UserDto
check_user payload none = throw (http_error HttpStatus.unauthorized ErrorCode.user_no_longer_exists)
check_user payload (some u) =
    if not u.is_active
    then throw (http_error HttpStatus.unauthorized ErrorCode.user_not_active)
    else if not (agrees payload u)
    then throw (http_error HttpStatus.unauthorized ErrorCode.token_payload_mismatch)
    else pure (to_user_dto u)

abbrev pub is_jwt_error : String → Bool
is_jwt_error name = name === "JsonWebTokenError" || name === "TokenExpiredError"

-- The `catch` that turns a refused token into an answer of the service.
unfoldable pub refused_as : ErrorCode → Exception → Exception
refused_as code (named name message) =
    if is_jwt_error name then http_error HttpStatus.unauthorized code else named name message
refused_as code e = e

module _ (c : Crypto) (b : Backend) (now : ℕ) where
  -- The body of the `try` of `extractUserFromAccessToken`.
  unfoldable pub identify : String → Action UserDto
  identify access_token = do
    payload ← lift (c.verify c.jwt_secret now access_token)
    user ← b.find_user (key_of payload)
    check_user payload user

  unfoldable pub extract_user_from_access_token : String → Action UserDto
  extract_user_from_access_token access_token =
      try_catch (identify access_token) (λ e. throw (refused_as ErrorCode.invalid_token e))
