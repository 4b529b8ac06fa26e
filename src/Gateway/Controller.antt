-- ===== src/Gateway/Controller.antt =====
-- The handlers of apps/server-nest/src/app/modules/auth/auth.controller.ts behind their guards: the class's
-- CSRF guard, then the guards of the method. The throttlers and the validation of the bodies are Nest's.
pub mod Admin
use demo_t.Base.{
  ℕ, String, Bool, true, false, not, Option, none, some, List, [], ◌∷◌, ◌===◌, if◌then◌else◌,
}
use demo_t.Errors.Exceptions.{Exception, Result, ok, err}
use demo_t.Auth.Rows.{DeviceInfo}
use demo_t.Auth.Device.{Connection, extract_device_info, not_given}
use demo_t.Auth.Action.{Action, ◌>>=◌, ◌>>◌, lift, pure}
use demo_t.Auth.Backend.{Crypto, Backend, Payload}
use demo_t.Auth.Users.{CreateUserParams, UpdateUserParams}
use demo_t.Gateway.Http.{Body, Sender, has_text}
use demo_t.Gateway.Calls
use demo_t.Gateway.Verify.{Tools}
use demo_t.Gateway.Guards.{
  Request, csrf_guard, access_token_guard, refresh_token_guard, roles_guard,
}
use demo_t.Gateway.Cookies.{
  Decoder, Cookie, set_cookies_from_tokens, access_token_cookie, refresh_token_cookie,
  access_token_pub_cookie, refresh_token_pub_cookie,
}

-- The answer: its status, the cookies set and cleared, and the body.
pub record Reply : Type 0 where
  pub status : ℕ
  pub cookies : List Cookie
  pub cleared : List String
  pub expires_in : Option ℕ
  pub profile : Option Body

abbrev pub empty_reply : ℕ → Reply
empty_reply status = record {
  status = status;
  cookies = [];
  cleared = [];
  expires_in = none;
  profile = none;
}

module _ (send : Sender) (url : String) (decode : Decoder) (mode : Option String) (csrf : String)
    (now : ℕ) where
  unfoldable pub reply_with_tokens : Body → Action Reply
  reply_with_tokens tokens =
      lift (set_cookies_from_tokens decode now mode csrf tokens) >>= λ cookies.
      pure (record (empty_reply 200) { cookies = cookies; expires_in = tokens.expires_in })

  unfoldable pub sign_in : Request → Connection → String → String → Action Reply
  sign_in request connection email password =
      lift (csrf_guard true request)
      >> (lift (Calls.sign_in send url email password (extract_device_info connection not_given))
          >>= λ tokens. reply_with_tokens tokens)

  unfoldable pub refresh : Request → Connection → Action Reply
  refresh request connection =
      lift (csrf_guard false request)
      >> (lift (refresh_token_guard request.refresh_token) >>= λ token.
          lift (Calls.refresh_token send url token (extract_device_info connection not_given))
          >>= λ tokens. reply_with_tokens tokens)

  -- The CSRF token's cookie is not cleared.
  unfoldable pub logout : Request → Action Reply
  logout request =
      lift (csrf_guard false request)
      >> (lift (refresh_token_guard request.refresh_token) >>= λ token.
          lift (Calls.logout send url token) >>= λ _. pure (record (empty_reply 200) {
            cleared =
                access_token_cookie ∷ refresh_token_cookie ∷ access_token_pub_cookie
                ∷ refresh_token_pub_cookie ∷ [];
          }))

  unfoldable pub register : Request → Connection → CreateUserParams → Action Reply
  register request connection params =
      lift (csrf_guard true request)
      >> (lift (Calls.register_user send url params (extract_device_info connection not_given))
          >> pure (empty_reply 201))

  unfoldable pub verify_email : Request → String → Action Reply
  verify_email request token =
      lift (csrf_guard false request)
      >> (lift (Calls.verify_email send url token) >> pure (empty_reply 200))

module _ (t : Tools) (c : Crypto) (b : Backend) (network : Result (Unit {0})) (send : Sender)
    (url : String) (now : ℕ) where
  unfoldable pub get_me : Request → Action Reply
  get_me request =
      lift (csrf_guard false request)
      >> (access_token_guard t c b network now request.access_token >>= λ (payload, token).
          lift (Calls.get_user_profile send url token) >>= λ profile.
          pure (record (empty_reply 200) { profile = profile }))

  unfoldable pub update_user : Request → ℕ → UpdateUserParams → Action Reply
  update_user request id params =
      lift (csrf_guard false request)
      >> (access_token_guard t c b network now request.access_token >>= λ (payload, token).
          lift (roles_guard ("ADMIN" ∷ []) payload)
          >> (lift (Calls.update_user send url token id params) >> pure (empty_reply 200)))
