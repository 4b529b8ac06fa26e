-- ===== src/Auth/Ownership/Accounts.antt =====
-- The methods on accounts keep every stored refresh token with an active account.
use demo_t.Base.{is_some, ◌-◌, ℕ, String, not, Option, none, some, refl, ◌===◌, ◌&&◌, ltb}
use demo_t.Auth.Rows.{User, World, by_email, by_id, is_token_of}
use demo_t.Auth.Action.{lift, Post, seq-Post}
use demo_t.Auth.Backend.{Crypto, Backend, IsBackend}
use demo_t.Auth.Backend.Rules.{delete_tokens-Post, update_user-Post, transaction-Post}
use demo_t.Auth.Permission.{UserDto, extract_user_from_access_token, is_admin}
use demo_t.Auth.TokenConfig.{email_verification_milliseconds}
use demo_t.Auth.Sessions.{require_active, require_allowed}
use demo_t.Auth.Ownership.{IsOwned, deactivate_user}
use demo_t.Auth.Ownership.Rules.{
  Keeps, pure-Keeps, throw-Keeps, lift-Keeps, if-Keeps, catch-Keeps, seq-Keeps, find_user-Keeps,
  redis_get-Keeps, redis_setex-Keeps, redis_del-Keeps, emit-Keeps, update_user-Keeps,
  delete_user-Keeps, delete_users-Keeps, create_user-Keeps,
}
use demo_t.Auth.Ownership.Checks.{extract-Keeps, require_active-Keeps, require_allowed-Keeps}
use demo_t.Auth.Users.{
  CreateUserParams, UpdateUserParams, create_user, replace_unverified,
  check_if_user_unverified_and_delete, update_user, updated, may_write_verified, require_found,
  cleanup_unverified_users, deactivate, deactivated, soft_delete_user, hard_delete_user,
  to_user_profile,
}
use demo_t.Auth.EmailVerification.{
  register, emit_user_registration_initiated, generate_verification_token, verify_email,
  verify_stored_token, invalidate_token, require_entry, require_number, require_unverified,
  verified, redis_key, parse_int,
}

module _ {I : World → Type 0} where
  require_found-Keeps : (found : Option User) → Keeps I (require_found found)
  unfolding require_found
  require_found-Keeps none = throw-Keeps _
  require_found-Keeps (some u) = pure-Keeps u

  may_write_verified-Keeps :
      (current : UserDto) (params : UpdateUserParams) → Keeps I (may_write_verified current params)
  unfolding may_write_verified
  may_write_verified-Keeps current params =
      if-Keeps (is_some params.email_verified && not (is_admin current.role)) _ _ (throw-Keeps _)
        (pure-Keeps tt)

  require_entry-Keeps : (found : Option String) → Keeps I (require_entry found)
  unfolding require_entry
  require_entry-Keeps none = throw-Keeps _
  require_entry-Keeps (some entry) = if-Keeps (entry === "") _ _ (throw-Keeps _) (pure-Keeps entry)

  require_number-Keeps : (found : Option ℕ) → Keeps I (require_number found)
  unfolding require_number
  require_number-Keeps none = throw-Keeps _
  require_number-Keeps (some n) = pure-Keeps n

  require_unverified-Keeps : (u : User) → Keeps I (require_unverified u)
  unfolding require_unverified
  require_unverified-Keeps u =
      if-Keeps (not u.is_active) _ _ (throw-Keeps _)
        (if-Keeps u.email_verified _ _ (throw-Keeps _) (pure-Keeps tt))

module _ (c : Crypto) (b : Backend) {Fault : Type 0} (L : IsBackend Fault b) (now : ℕ) where
  replace_unverified-Keeps :
      (found : Option User) → Keeps IsOwned (replace_unverified c b now found)
  unfolding replace_unverified
  replace_unverified-Keeps none = pure-Keeps tt
  replace_unverified-Keeps (some u) = if-Keeps u.email_verified _ _ (throw-Keeps _) (
      if-Keeps (ltb u.created_at (now - email_verification_milliseconds)) _ _
        (delete_user-Keeps b L u.id) (throw-Keeps _))

  pub create_user-IsOwned : (params : CreateUserParams) → Keeps IsOwned (create_user c b now params)
  unfolding create_user check_if_user_unverified_and_delete
  create_user-IsOwned params =
      seq-Keeps (lift (c.hash params.password 10)) _ (lift-Keeps _) (λ hashed.
        seq-Keeps (check_if_user_unverified_and_delete c b now (c.lower params.email)) _
          (seq-Keeps (b.find_user (by_email (c.lower params.email))) _ (find_user-Keeps b L _)
            (λ found. replace_unverified-Keeps found))
          (λ _. create_user-Keeps b L _ now))

  pub update_user-IsOwned :
      (token : String) (id : ℕ) (params : UpdateUserParams)
      → Keeps IsOwned (update_user c b now token id params)
  unfolding update_user updated
  update_user-IsOwned token id params =
      seq-Keeps (extract_user_from_access_token c b now token) _ (extract-Keeps c b now L token)
        (λ current. seq-Keeps (b.find_user (by_id id)) _ (find_user-Keeps b L (by_id id)) (λ found.
          seq-Keeps (require_active found) _ (require_active-Keeps found) (λ target.
            seq-Keeps (require_allowed _) _ (require_allowed-Keeps _) (λ _.
              seq-Keeps (may_write_verified current params) _
                (may_write_verified-Keeps current params)
                (λ _.
                  seq-Keeps (b.update_user id (updated c.lower params) now) _
                    (update_user-Keeps b L id (updated c.lower params) now (λ _. refl) (λ _. refl))
                    (λ u. pure-Keeps (to_user_profile u)))))))

  deactivate-Owned :
      (id : ℕ) (w : World)
      → IsOwned w
      → Post (λ _ w'. IsOwned w') (λ _ _. Unit {0}) (deactivate c b now id w)
  unfolding deactivate
  deactivate-Owned id w o = seq-Post (b.delete_tokens (is_token_of id)) (
      delete_tokens-Post b L (is_token_of id) w
        (update_user-Post b L id deactivated now _ (λ _ _. deactivate_user w o id _ (λ _. refl))
          (λ _ _. tt))
        (λ _ _. tt))

  -- The account is deactivated with all of its tokens, or not at all.
  pub soft_delete_user-Keeps :
      (token : String) (id : ℕ) → Keeps IsOwned (soft_delete_user c b now token id)
  unfolding soft_delete_user
  soft_delete_user-Keeps token id =
      seq-Keeps (extract_user_from_access_token c b now token) _ (extract-Keeps c b now L token)
        (λ current. seq-Keeps (b.find_user (by_id id)) _ (find_user-Keeps b L (by_id id)) (λ found.
          seq-Keeps (require_active found) _ (require_active-Keeps found) (λ target.
            seq-Keeps (require_allowed _) _ (require_allowed-Keeps _) (λ _ w o.
              transaction-Post b L (λ _ _. Unit {0}) (deactivate c b now id) w
                (deactivate-Owned id w o) (λ _ _. o)))))

  pub hard_delete_user-Keeps :
      (token : String) (id : ℕ) → Keeps IsOwned (hard_delete_user c b now token id)
  unfolding hard_delete_user
  hard_delete_user-Keeps token id =
      seq-Keeps (extract_user_from_access_token c b now token) _ (extract-Keeps c b now L token)
        (λ current. seq-Keeps (b.find_user (by_id id)) _ (find_user-Keeps b L (by_id id)) (λ found.
          seq-Keeps (require_found found) _ (require_found-Keeps found) (λ target.
            seq-Keeps (require_allowed _) _ (require_allowed-Keeps _)
              (λ _. delete_user-Keeps b L id))))

  pub cleanup_unverified_users-Keeps : Keeps IsOwned (cleanup_unverified_users c b now)
  unfolding cleanup_unverified_users
  cleanup_unverified_users-Keeps = delete_users-Keeps b L _

  pub verify_email-Keeps : (token : String) → Keeps IsOwned (verify_email b now token)
  unfolding verify_email verify_stored_token invalidate_token
  verify_email-Keeps token =
      seq-Keeps (b.redis_get (redis_key token) now) _ (redis_get-Keeps b L _ now) (λ found.
        seq-Keeps (require_entry found) _ (require_entry-Keeps found) (λ entry.
          seq-Keeps (require_number (parse_int entry)) _ (require_number-Keeps _) (λ id.
            seq-Keeps (b.find_user (by_id id)) _ (find_user-Keeps b L (by_id id)) (λ row.
              seq-Keeps (require_found row) _ (require_found-Keeps row) (λ u.
                seq-Keeps (require_unverified u) _ (require_unverified-Keeps u) (λ _.
                  seq-Keeps (b.update_user id (verified now) now) _
                    (update_user-Keeps b L id (verified now) now (λ _. refl) (λ _. refl))
                    (λ v. seq-Keeps (b.redis_del (redis_key token)) _ (redis_del-Keeps b L _) (λ _.
                      pure-Keeps (record {
                        message = "Email verified successfully";
                        email = v.email;
                        verified_at = v.email_verified_at;
                      })))))))))

  pub register-Keeps :
      (to_string : ℕ → String) (token : String) (params : CreateUserParams)
      → Keeps IsOwned (register c b to_string now token params)
  unfolding register generate_verification_token emit_user_registration_initiated
  register-Keeps to_string token params =
      seq-Keeps (create_user c b now params) _ (create_user-IsOwned params) (λ u.
        seq-Keeps (generate_verification_token b now token (to_string u.id)) _
          (seq-Keeps (b.redis_setex _ _ _ now) _ (redis_setex-Keeps b L _ _ _ now)
            (λ _. pure-Keeps token))
          (λ _.
            seq-Keeps (emit_user_registration_initiated b _) _
              (catch-Keeps _ _ (emit-Keeps b L _) (λ _. pure-Keeps tt)) (λ _. pure-Keeps u)))
