-- ===== src/Auth/Ownership/Checks.antt =====
-- The checks of the methods touch nothing.
use demo_t.Base.{ℕ, String, not, Option, none, some, ◌===◌}
use demo_t.Auth.Rows.{User, RefreshToken, World}
use demo_t.Auth.Action.{lift}
use demo_t.Auth.Backend.{Crypto, Backend, IsBackend, Payload}
use demo_t.Auth.Permission.{
  Authorization, allowed, denied, key_of, agrees, to_user_dto, check_user, identify,
  extract_user_from_access_token,
}
use demo_t.Auth.Tokens.{refresh_token_id, verify_refresh_token, sign_access, sign_refresh}
use demo_t.Auth.Sessions.{
  require_active, require_allowed, require_verified, check_password, require_stored, require_owner,
}
use demo_t.Auth.Ownership.Rules.{
  Keeps, pure-Keeps, throw-Keeps, lift-Keeps, if-Keeps, catch-Keeps, seq-Keeps, find_user-Keeps,
}

-- A check that throws or returns, and touches nothing.
module _ {I : World → Type 0} where
  pub require_active-Keeps : (found : Option User) → Keeps I (require_active found)
  unfolding require_active
  require_active-Keeps none = throw-Keeps _
  require_active-Keeps (some u) = if-Keeps u.is_active _ _ (pure-Keeps u) (throw-Keeps _)

  pub require_allowed-Keeps : (a : Authorization) → Keeps I (require_allowed a)
  unfolding require_allowed
  require_allowed-Keeps allowed = pure-Keeps tt
  require_allowed-Keeps (denied reason) = throw-Keeps _

  pub check_user-Keeps :
      (payload : Payload) (found : Option User) → Keeps I (check_user payload found)
  unfolding check_user
  check_user-Keeps payload none = throw-Keeps _
  check_user-Keeps payload (some u) =
      if-Keeps (not u.is_active) _ _ (throw-Keeps _)
        (if-Keeps (not (agrees payload u)) _ _ (throw-Keeps _) (pure-Keeps (to_user_dto u)))

  pub refresh_token_id-Keeps : (payload : Payload) → Keeps I (refresh_token_id payload)
  unfolding refresh_token_id
  refresh_token_id-Keeps (Payload.access id email role) = throw-Keeps _
  refresh_token_id-Keeps (Payload.refresh user_id token_id type) =
      if-Keeps (type === "refresh") _ _ (pure-Keeps token_id) (throw-Keeps _)

module _ {I : World → Type 0} (c : Crypto) (b : Backend) (now : ℕ) where
  pub require_stored-Keeps : (found : Option RefreshToken) → Keeps I (require_stored c b now found)
  unfolding require_stored
  require_stored-Keeps none = throw-Keeps _
  require_stored-Keeps (some t) = pure-Keeps t

  pub require_owner-Keeps : (found : Option User) → Keeps I (require_owner c b now found)
  unfolding require_owner
  require_owner-Keeps none = throw-Keeps _
  require_owner-Keeps (some u) = pure-Keeps u

  pub require_verified-Keeps : (u : User) → Keeps I (require_verified c b now u)
  unfolding require_verified
  require_verified-Keeps u = if-Keeps u.email_verified _ _ (pure-Keeps tt) (throw-Keeps _)

  pub check_password-Keeps :
      (password : String) (u : User) → Keeps I (check_password c b now password u)
  unfolding check_password
  check_password-Keeps password u =
      seq-Keeps (lift (c.compare password u.password)) _ (lift-Keeps _)
        (λ is_match. if-Keeps is_match _ _ (pure-Keeps tt) (throw-Keeps _))

  pub verify_refresh_token-Keeps : (token : String) → Keeps I (verify_refresh_token c b now token)
  unfolding verify_refresh_token
  verify_refresh_token-Keeps token =
      seq-Keeps (lift _) refresh_token_id (lift-Keeps _) refresh_token_id-Keeps

  pub sign_access-Keeps : (u : User) → Keeps I (sign_access c b now u)
  sign_access-Keeps u = lift-Keeps _

  pub sign_refresh-Keeps :
      (u : User) (token_id : String) → Keeps I (sign_refresh c b now u token_id)
  sign_refresh-Keeps u token_id = lift-Keeps _

  module _ {Fault : Type 0} (L : IsBackend Fault b) where
    pub extract-Keeps : (token : String) → Keeps I (extract_user_from_access_token c b now token)
    unfolding extract_user_from_access_token identify
    extract-Keeps token =
        catch-Keeps (identify c b now token) _
          (seq-Keeps (lift (c.verify c.jwt_secret now token)) _ (lift-Keeps _) (λ payload.
            seq-Keeps (b.find_user (key_of payload)) _ (find_user-Keeps b L (key_of payload))
              (check_user-Keeps payload)))
          (λ e. throw-Keeps _)
