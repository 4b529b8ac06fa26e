-- ===== src/Auth/Rows.antt =====
-- The rows of the auth service's database, apps/auth-service/src/prisma-setup/schema.prisma, and the
-- state that the service's clients keep: the two tables, the Redis entries and the emitted events.
-- Times are milliseconds.
use demo_t.Base.{ℕ, String, Bool, false, Option, List, ◌===◌, ◌==◌, ◌&&◌}

pub data Role : Type 0 where
  admin manager client : Role

abbrev pub role_name : Role → String
role_name admin = "ADMIN"
role_name manager = "MANAGER"
role_name client = "CLIENT"

pub record User : Type 0 where
  pub id : ℕ
  pub name : Option String
  pub password : String
  pub email : String
  pub role : Role
  pub settings : String
  pub is_active : Bool
  pub deleted_at : Option ℕ
  pub original_email : Option String
  pub email_verified : Bool
  pub email_verified_at : Option ℕ
  pub created_at : ℕ
  pub updated_at : ℕ

pub record RefreshToken : Type 0 where
  pub id : String
  pub user_id : ℕ
  pub token : String
  pub user_agent : Option String
  pub ip_address : Option String
  pub expires_at : ℕ
  pub created_at : ℕ
  pub last_used_at : Option ℕ

-- An entry of the Redis store with the moment at which it expires.
pub record Entry : Type 0 where
  pub key : String
  pub value : String
  pub expires_at : ℕ

-- libs/models/src/events/user-registration/user-registration.events.ts
pub record UserRegistrationInitiatedEvent : Type 0 where
  pub email : String
  pub name : Option String
  pub user_id : String
  pub verification_token : String
  pub timestamp : ℕ
  pub expiration_minutes : ℕ

pub record World : Type 0 where
  pub users : List User
  pub tokens : List RefreshToken
  pub redis : List Entry
  pub events : List UserRegistrationInitiatedEvent

-- libs/models/src/api-auth/api-common.ts
pub record DeviceInfo : Type 0 where
  pub user_agent : String
  pub ip : String

-- What `findUnique` on the users is asked for. `missing_id` is an `undefined` id.
pub data UserKey : Type 0 where
  by_id : ℕ → UserKey
  by_id_active : ℕ → UserKey
  by_email : String → UserKey
  missing_id : UserKey

abbrev pub matches : UserKey → User → Bool
matches (by_id id) u = u.id == id
matches (by_id_active id) u = u.id == id && u.is_active
matches (by_email email) u = u.email === email
matches missing_id u = false

abbrev pub is_user : ℕ → User → Bool
is_user id u = u.id == id

abbrev pub is_token : String → RefreshToken → Bool
is_token id t = t.id === id

abbrev pub is_token_of : ℕ → RefreshToken → Bool
is_token_of user_id t = t.user_id == user_id
