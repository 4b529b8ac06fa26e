-- ===== src/Auth/Ownership/SignIn.antt =====
-- A sign-in keeps every stored refresh token with an active account.
use demo_t.Base.{ℕ, String, List, [], ◌∷◌, find, any_of_find, arith}
use demo_t.Auth.Rows.{User, RefreshToken, World, DeviceInfo, by_email, by_id_active, matches}
use demo_t.Auth.Action.{Action, lift, Post, Post-mono, seq-Post}
use demo_t.Auth.Backend.{Crypto, Backend, IsBackend}
use demo_t.Auth.Backend.Rules.{find_user-Post}
use demo_t.Auth.TokenConfig.{access_token_seconds}
use demo_t.Auth.Tokens.{
  bulk_delete_tokens, enforce_token_limit, remove_device_tokens, cleanup_existing_device_token,
  generate_token_pair, new_token, AuthTokens, sign_access, sign_refresh,
}
use demo_t.Auth.Sessions.{require_active, require_verified, check_password, sign_in, refresh_token}
use demo_t.Auth.Sessions.Guards.{require_active-Post}
use demo_t.Auth.Ownership.{IsOwned}
use demo_t.Auth.Ownership.Rules.{
  Keeps, pure-Keeps, lift-Keeps, catch-Keeps, seq-Keeps, find_tokens-Keeps,
  find_tokens_by_use-Keeps, IsOwnedWith, delete_tokens-With, create_token-With,
}
use demo_t.Auth.Ownership.Checks.{
  check_password-Keeps, require_verified-Keeps, sign_access-Keeps, sign_refresh-Keeps,
}

abbrev pair : String → String → AuthTokens
pair access_token refresh_token = record {
  access_token = access_token;
  refresh_token = refresh_token;
  expires_in = access_token_seconds;
}

module _ (c : Crypto) (b : Backend) {Fault : Type 0} (L : IsBackend Fault b) (now : ℕ) where
  -- The tokens of an account that is there and active.
  module _ (id : ℕ) where
    bulk_delete_tokens-With :
        (ts : List RefreshToken) → Keeps (IsOwnedWith id) (bulk_delete_tokens c b now ts)
    unfolding bulk_delete_tokens
    bulk_delete_tokens-With [] = pure-Keeps 0
    bulk_delete_tokens-With (t ∷ ts) = delete_tokens-With b L id _

    enforce_token_limit-With :
        (user_id : ℕ) → Keeps (IsOwnedWith id) (enforce_token_limit c b now user_id)
    unfolding enforce_token_limit
    enforce_token_limit-With user_id =
        seq-Keeps (b.find_tokens_by_use _) _ (find_tokens_by_use-Keeps b L _) (λ ts.
          seq-Keeps (bulk_delete_tokens c b now _) _ (bulk_delete_tokens-With _)
            (λ _. pure-Keeps tt))

    cleanup_device-With :
        (user_id : ℕ) (device : DeviceInfo)
        → Keeps (IsOwnedWith id) (cleanup_existing_device_token c b now user_id device)
    unfolding cleanup_existing_device_token remove_device_tokens
    cleanup_device-With user_id device =
        catch-Keeps (remove_device_tokens c b now user_id device) _
          (seq-Keeps (b.find_tokens _) _ (find_tokens-Keeps b L _) (λ ts.
            seq-Keeps (bulk_delete_tokens c b now ts) _ (bulk_delete_tokens-With ts)
              (λ _. pure-Keeps tt)))
          (λ e. pure-Keeps tt)

  generate_token_pair-With :
      (token_id : String) (u : User) (device : DeviceInfo)
      → Keeps (IsOwnedWith u.id) (generate_token_pair c b now token_id u device)
  unfolding generate_token_pair
  generate_token_pair-With token_id u device =
      seq-Keeps (cleanup_existing_device_token c b now u.id device) _
        (cleanup_device-With u.id u.id device)
        (λ _.
          seq-Keeps (enforce_token_limit c b now u.id) _ (enforce_token_limit-With u.id u.id) (λ _.
            seq-Keeps (sign_access c b now u) _ (sign_access-Keeps c b now u) (λ access_token.
              seq-Keeps (sign_refresh c b now u token_id) _ (sign_refresh-Keeps c b now u token_id)
                (λ refresh_token.
                  seq-Keeps (lift (c.hash refresh_token 10)) _ (lift-Keeps _) (λ hashed.
                    seq-Keeps (b.create_token _) _
                      (create_token-With b L (new_token now token_id u.id hashed device))
                      (λ _. pure-Keeps (pair access_token refresh_token)))))))

  -- A sign-in stores a token only for the active account that it found.
  pub sign_in-Keeps :
      (token_id email password : String) (device : DeviceInfo)
      → Keeps IsOwned (sign_in c b now token_id email password device)
  unfolding sign_in
  sign_in-Keeps token_id email password device w o =
      seq-Post (b.find_user (by_email (c.lower email))) (
        find_user-Post b L (by_email (c.lower email)) w
          (seq-Post (require_active (find (matches (by_email (c.lower email))) w.users)) (
            require_active-Post (find (matches (by_email (c.lower email))) w.users) w
              (λ u found active.
                lose u w
                  (seq-Keeps (require_verified c b now u) _ (require_verified-Keeps c b now u) (λ _.
                    seq-Keeps (check_password c b now password u) _
                      (check_password-Keeps c b now password u)
                      (λ _. generate_token_pair-With token_id u device)))
                  (
                    o,
                    any_of_find _ (matches (by_id_active u.id)) w.users u found
                        (ground (arith, active)),
                  ))
              (λ _. o)))
          (λ _ _. o))
    where
      lose :
          {A : Type 0} {m : Action A} (u : User) (v : World)
          → Keeps (IsOwnedWith u.id) m
          → IsOwnedWith u.id v
          → Post (λ _ w'. IsOwned w') (λ _ w'. IsOwned w') (m v)
      lose {m} u v k p = Post-mono (m v) (k v p) (λ _ _ q. q.0) (λ _ _ q. q.0)
