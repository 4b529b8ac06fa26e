-- ===== src/Auth/Controller.antt =====
-- The handlers of apps/auth-service/src/app/modules/auth/auth.controller.ts, besides `register` and `get_me`.
use demo_t.Base.{ℕ, String}
use demo_t.Auth.Action.{Action, ◌>>◌, pure}
use demo_t.Auth.Backend.{Crypto, Backend}
use demo_t.Auth.Device.{Connection, GivenDevice, extract_device_info}
use demo_t.Auth.Tokens.{AuthTokens}
use demo_t.Auth.Sessions
use demo_t.Auth.Sessions.{Verification, LogoutAllResponse}
use demo_t.Auth.Users
use demo_t.Auth.Users.{UserProfile, UpdateUserParams}
use demo_t.Auth.EmailVerification
use demo_t.Auth.EmailVerification.{VerifyEmailResponse}

pub record LogoutResponse : Type 0 where
  pub message : String
  pub timestamp : ℕ

module _ (c : Crypto) (b : Backend) (now : ℕ) where
  -- The random token id is an argument.
  unfoldable pub sign_in : String → Connection → String → String → GivenDevice → Action AuthTokens
  sign_in token_id request email password given =
      Sessions.sign_in c b now token_id email password (extract_device_info request given)

  unfoldable pub refresh_token : String → Connection → String → GivenDevice → Action AuthTokens
  refresh_token new_id request token given =
      Sessions.refresh_token c b now new_id token (extract_device_info request given)

  unfoldable pub logout : String → Action LogoutResponse
  logout token =
      Sessions.revoke_refresh_token c b now token
      >> pure (record { message = "Logged out successfully"; timestamp = now })

  unfoldable pub logout_all : String → ℕ → Action LogoutAllResponse
  logout_all access_token user_id = Sessions.logout_all_devices c b now access_token user_id

  unfoldable pub verify_token : String → Action Verification
  verify_token access_token = Sessions.verify_token c b now access_token

  unfoldable pub update_user : String → ℕ → UpdateUserParams → Action UserProfile
  update_user access_token target_user_id params =
      Users.update_user c b now access_token target_user_id params

  unfoldable pub soft_delete_user : String → ℕ → Action String
  soft_delete_user access_token target_user_id =
      Users.soft_delete_user c b now access_token target_user_id
      >> pure "User soft deleted successfully"

  unfoldable pub hard_delete_user : String → ℕ → Action (Unit {0})
  hard_delete_user access_token target_user_id =
      Users.hard_delete_user c b now access_token target_user_id

module _ (b : Backend) (now : ℕ) where
  unfoldable pub verify_email : String → Action VerifyEmailResponse
  verify_email token = EmailVerification.verify_email b now token
