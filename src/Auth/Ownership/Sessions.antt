-- ===== src/Auth/Ownership/Sessions.antt =====
-- The methods on sessions, and the scheduled jobs, keep every stored refresh token with an active account.
use demo_t.Base.{ℕ, String, none, List, [], ◌∷◌, refl, ◌==◌, ◌+◌, ltb}
use demo_t.Auth.Rows.{User, RefreshToken, DeviceInfo, by_id, is_token_of}
use demo_t.Auth.Action.{◌>>=◌, lift}
use demo_t.Auth.Backend.{Crypto, Backend, IsBackend}
use demo_t.Auth.Permission.{extract_user_from_access_token}
use demo_t.Auth.TokenConfig.{access_token_seconds}
use demo_t.Auth.Tokens.{
  rotate_tokens, verify_refresh_token, update_token_usage, cleanup_token, revoke_all_refresh_tokens,
  rotated, used, sign_access, sign_refresh,
}
use demo_t.Auth.Sessions.{
  require_active, require_allowed, check_stored, check_expiry, require_stored, require_owner,
  refresh_body, refresh_token, revoke_refresh_token, logout_all_devices,
}
use demo_t.Auth.Ownership.{IsOwned}
use demo_t.Auth.Ownership.Rules.{
  Keeps, pure-Keeps, throw-Keeps, lift-Keeps, if-Keeps, catch-Keeps, seq-Keeps, find_user-Keeps,
  find_token-Keeps, delete_tokens-Keeps, delete_token-Keeps, update_token-Keeps,
}
use demo_t.Auth.Ownership.Checks.{
  extract-Keeps, require_active-Keeps, require_allowed-Keeps, require_owner-Keeps,
  require_stored-Keeps, sign_access-Keeps, sign_refresh-Keeps, verify_refresh_token-Keeps,
}
use demo_t.Auth.Cleanup.{
  cleanup_loop, cleanup_unused_tokens, daily_cleanup, weekly_deep_cleanup, is_expired, batch_size,
}
use demo_t.Auth.Cleanup

module _ (c : Crypto) (b : Backend) {Fault : Type 0} (L : IsBackend Fault b) (now : ℕ) where
  check_expiry-Keeps :
      (token_id : String) (stored : RefreshToken)
      → Keeps IsOwned (check_expiry c b now token_id stored)
  unfolding check_expiry cleanup_token
  check_expiry-Keeps token_id stored =
      if-Keeps (ltb stored.expires_at now) _ _
        (seq-Keeps (b.delete_token token_id) _ (delete_token-Keeps b L token_id)
          (λ _. throw-Keeps _))
        (pure-Keeps tt)

  check_stored-Keeps :
      (token : String) (stored : RefreshToken) → Keeps IsOwned (check_stored c b now token stored)
  unfolding check_stored revoke_all_refresh_tokens
  check_stored-Keeps token stored =
      seq-Keeps (lift (c.compare token stored.token)) _ (lift-Keeps _) (λ is_valid.
        if-Keeps is_valid _ _ (pure-Keeps tt) (
          seq-Keeps (b.delete_tokens (is_token_of stored.user_id)) _ (delete_tokens-Keeps b L _)
            (λ _. throw-Keeps _)))

  rotate_tokens-Keeps :
      (new_id : String) (u : User) (old_id : String) (device : DeviceInfo)
      → Keeps IsOwned (rotate_tokens c b now new_id u old_id device)
  unfolding rotate_tokens
  rotate_tokens-Keeps new_id u old_id device =
      seq-Keeps (sign_access c b now u) _ (sign_access-Keeps c b now u) (λ access_token.
        seq-Keeps (sign_refresh c b now u new_id) _ (sign_refresh-Keeps c b now u new_id)
          (λ refresh_token. seq-Keeps (lift (c.hash refresh_token 10)) _ (lift-Keeps _) (λ hashed.
            seq-Keeps (b.update_token old_id (rotated now new_id hashed device)) _
              (update_token-Keeps b L old_id _ (λ _. refl))
              (λ _. pure-Keeps (record {
                access_token = access_token;
                refresh_token = refresh_token;
                expires_in = access_token_seconds;
              })))))

  pub refresh_token-Keeps :
      (new_id token : String) (device : DeviceInfo)
      → Keeps IsOwned (refresh_token c b now new_id token device)
  unfolding refresh_token refresh_body update_token_usage
  refresh_token-Keeps new_id token device =
      catch-Keeps (refresh_body c b now new_id token device) _
        (seq-Keeps (verify_refresh_token c b now token) _ (verify_refresh_token-Keeps c b now token)
          (λ token_id. seq-Keeps (b.find_token token_id) _ (find_token-Keeps b L token_id) (λ found.
            seq-Keeps (require_stored c b now found) _ (require_stored-Keeps c b now found)
              (λ stored.
                seq-Keeps (b.find_user (by_id stored.user_id)) _ (find_user-Keeps b L _) (λ owner.
                  seq-Keeps (check_expiry c b now token_id stored) _
                    (check_expiry-Keeps token_id stored)
                    (λ _.
                      seq-Keeps (check_stored c b now token stored) _
                        (check_stored-Keeps token stored)
                        (λ _.
                          seq-Keeps (require_owner c b now owner) _
                            (require_owner-Keeps c b now owner)
                            (λ user.
                              seq-Keeps (b.update_token token_id (used now device)) _
                                (update_token-Keeps b L token_id _ (λ _. refl))
                                (λ _. rotate_tokens-Keeps new_id user token_id device)))))))))
        (λ e. throw-Keeps _)

  pub revoke_refresh_token-Keeps :
      (token : String) → Keeps IsOwned (revoke_refresh_token c b now token)
  unfolding revoke_refresh_token cleanup_token
  revoke_refresh_token-Keeps token =
      catch-Keeps (verify_refresh_token c b now token >>= λ token_id. b.delete_token token_id) _
        (seq-Keeps (verify_refresh_token c b now token) _ (verify_refresh_token-Keeps c b now token)
          (λ token_id. delete_token-Keeps b L token_id))
        (λ e. throw-Keeps _)

  pub logout_all_devices-Keeps :
      (token : String) (id : ℕ) → Keeps IsOwned (logout_all_devices c b now token id)
  unfolding logout_all_devices revoke_all_refresh_tokens
  logout_all_devices-Keeps token id =
      seq-Keeps (extract_user_from_access_token c b now token) _ (extract-Keeps c b now L token)
        (λ current. seq-Keeps (b.find_user (by_id id)) _ (find_user-Keeps b L (by_id id)) (λ found.
          seq-Keeps (require_active found) _ (require_active-Keeps found) (λ target.
            seq-Keeps (require_allowed _) _ (require_allowed-Keeps _) (λ _.
              seq-Keeps (b.delete_tokens (is_token_of id)) _ (delete_tokens-Keeps b L _) (λ revoked.
                pure-Keeps (record {
                  message = "Logged out from all devices successfully";
                  devices_logged_out = revoked;
                  timestamp = now;
                }))))))

  cleanup_loop-Keeps : (times : List ℕ) (total : ℕ) → Keeps IsOwned (cleanup_loop b now times total)
  unfolding cleanup_loop
  cleanup_loop-Keeps [] total = pure-Keeps none
  cleanup_loop-Keeps (time ∷ times) total =
      seq-Keeps (b.delete_tokens (is_expired time)) _ (delete_tokens-Keeps b L _) (λ count.
        if-Keeps (count == batch_size) _ _ (cleanup_loop-Keeps times (total + count))
          (pure-Keeps _))

  pub weekly_deep_cleanup-Keeps : (times : List ℕ) → Keeps IsOwned (weekly_deep_cleanup b now times)
  unfolding weekly_deep_cleanup Cleanup.cleanup_expired_tokens cleanup_unused_tokens
  weekly_deep_cleanup-Keeps times =
      catch-Keeps _ _
        (seq-Keeps (cleanup_loop b now times 0) _ (cleanup_loop-Keeps times 0)
          (λ _. seq-Keeps (b.delete_tokens _) _ (delete_tokens-Keeps b L _) (λ _. pure-Keeps tt)))
        (λ e. pure-Keeps tt)

  pub daily_cleanup-Keeps : (times : List ℕ) → Keeps IsOwned (daily_cleanup b now times)
  unfolding daily_cleanup Cleanup.cleanup_expired_tokens
  daily_cleanup-Keeps times =
      catch-Keeps _ _
        (seq-Keeps (cleanup_loop b now times 0) _ (cleanup_loop-Keeps times 0) (λ _. pure-Keeps tt))
        (λ e. pure-Keeps tt)
