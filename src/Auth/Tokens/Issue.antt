-- ===== src/Auth/Tokens/Issue.antt =====
-- Issuing a pair of tokens stores the refresh token.
use demo_t.Base.{
  ℕ, String, Bool, true, false, not, none, some, ◌≡◌, refl, sym, subst, ◌⊎◌, inl, inr, arith,
  eq_iff, find, any, drop_where, any-keep, keep-true, ◌+◌, ◌*◌,
}
use demo_t.Errors.Exceptions.{ok}
use demo_t.Auth.Rows.{RefreshToken, World, User, DeviceInfo, is_token, is_user, role_name}
use demo_t.Auth.Action.{Post, ◌>>◌, pure, seq-Post, try_catch-Post, lift, known-Post, Post-mono}
use demo_t.Auth.Backend.{Backend, IsBackend, Crypto, access, refresh}
use demo_t.Auth.Backend.Rules.{find_tokens-Post, find_tokens_by_use-Post, create_token-Post}
use demo_t.Auth.TokenConfig.{access_token_seconds, refresh_token_seconds}
use demo_t.Auth.Tokens.{
  AuthTokens, remove_device_tokens, is_active_token_of, is_device_token_of, is_one_of,
  tokens_to_remove, bulk_delete_tokens, enforce_token_limit, cleanup_existing_device_token,
  generate_token_pair, sign_access, sign_refresh, new_token, get_refresh_token_secret,
}
use demo_t.Auth.Tokens.Limit.{bulk_delete_tokens-Post}

-- Some tokens are gone, and nothing else has changed.
abbrev pub Shrinks : World → World → Type 0
Shrinks w w' = (p : RefreshToken → Bool) × (w' ≡ record w { tokens = drop_where p w.tokens })

Shrinks-refl : (w : World) → Shrinks w w
Shrinks-refl w =
    (λ _. false, subst (λ ts. w ≡ record w { tokens = ts }) (sym (keep-true w.tokens)) refl)

-- An id that is not in use stays so, and every user stays.
Shrinks-fresh :
    (id : String) (w w' : World)
    → Shrinks w w'
    → any (is_token id) w.tokens ≡ false
    → any (is_token id) w'.tokens ≡ false
Shrinks-fresh id w w' (p, same) fresh =
    rw same (any-keep (is_token id) (λ t. not (p t)) w.tokens fresh)

Shrinks-owned :
    (id : ℕ) (w w' : World)
    → Shrinks w w'
    → any (is_user id) w.users ≡ true
    → any (is_user id) w'.users ≡ true
Shrinks-owned id w w' (p, same) owned = rw same owned

-- The libraries that make the tokens do not fail on this pair.
pub record Signs (c : Crypto) (now : ℕ) (token_id : String) (user : User) : Type 0 where
  pub access_token : String
  pub refresh_token : String
  pub hashed : String
  pub signs_access :
      c.sign c.jwt_secret access_token_seconds now (access user.id user.email (role_name user.role))
      ≡ ok access_token
  pub signs_refresh :
      c.sign
        (get_refresh_token_secret c)
        refresh_token_seconds
        now
        (refresh user.id token_id "refresh")
      ≡ ok refresh_token
  pub hashes : c.hash refresh_token 10 ≡ ok hashed

-- The pair is the signed one, and the row of its refresh token is stored.
abbrev pub IsIssued :
    (c : Crypto) (now : ℕ) (token_id : String) (user : User)
    → DeviceInfo
    → Signs c now token_id user
    → AuthTokens
    → World
    → Type 0
IsIssued c now token_id user device s tokens w' =
    (tokens.access_token ≡ s.access_token)
    × (tokens.refresh_token ≡ s.refresh_token)
    × (find (is_token token_id) w'.tokens
        ≡ some (record {
          id = token_id;
          user_id = user.id;
          token = s.hashed;
          user_agent = some device.user_agent;
          ip_address = some device.ip;
          expires_at = now + 7 * 24 * 3600 * 1000;
          created_at = now;
          last_used_at = none;
        }))

module _ {Fault : Type 0} (c : Crypto) (b : Backend) (L : IsBackend Fault b) (now : ℕ) where
  -- Clearing a device's tokens goes on whatever happens.
  cleanup_existing_device_token-Shrinks :
      (user_id : ℕ) (device : DeviceInfo) (w : World)
      → Post
          (λ _ w'. Shrinks w w')
          (λ _ _. ⊥)
          (cleanup_existing_device_token c b now user_id device w)
  unfolding cleanup_existing_device_token remove_device_tokens
  cleanup_existing_device_token-Shrinks user_id device w =
      try_catch-Post (remove_device_tokens c b now user_id device) (
        seq-Post (b.find_tokens (is_device_token_of user_id device)) (
          find_tokens-Post b L (is_device_token_of user_id device) w
            (λ ts same. seq-Post (bulk_delete_tokens c b now ts) (
              bulk_delete_tokens-Post b L c now ts w (λ n. record { holds = (is_one_of ts, refl) })
                (λ e _. record { holds = Shrinks-refl w })))
            (λ e _. record { holds = Shrinks-refl w })))

  enforce_token_limit-Shrinks :
      (user_id : ℕ) (w : World)
      → Post (λ _ w'. Shrinks w w') (λ _ _. Fault) (enforce_token_limit c b now user_id w)
  unfolding enforce_token_limit
  enforce_token_limit-Shrinks user_id w =
      seq-Post (b.find_tokens_by_use (is_active_token_of user_id now)) (
        find_tokens_by_use-Post b L (is_active_token_of user_id now) w
          (λ ts same sorted. seq-Post (bulk_delete_tokens c b now (tokens_to_remove ts)) (
            bulk_delete_tokens-Post b L c now (tokens_to_remove ts) w
              (λ n. record { holds = (is_one_of (tokens_to_remove ts), refl) }) (λ e f. f)))
          (λ e f. f))

  -- A row with a fresh id and an owner is stored.
  create_token-stored :
      (t : RefreshToken) (w : World)
      → any (is_token t.id) w.tokens ≡ false
      → any (is_user t.user_id) w.users ≡ true
      → Post (λ _ w'. find (is_token t.id) w'.tokens ≡ some t) (λ _ _. Fault) (b.create_token t w)
  create_token-stored t w fresh owned =
      create_token-Post b L t w (λ _ _. ground (arith, eq_iff t.id t.id)) (λ e why. reason why)
    where
      reason :
          (Fault
            ⊎ (any (is_token t.id) w.tokens ≡ true)
            ⊎ (any (is_user t.user_id) w.users ≡ false))
          → Fault
      reason (inl f) = f
      reason (inr (inl taken)) = cc
      reason (inr (inr orphan)) = cc

  -- For a fresh id the pair is issued unless a server fails, and the refresh token's row is stored.
  pub generate_token_pair-stored :
      (token_id : String) (user : User) (device : DeviceInfo) (w : World)
      (s : Signs c now token_id user)
      → any (is_token token_id) w.tokens ≡ false
      → any (is_user user.id) w.users ≡ true
      → Post
          (IsIssued c now token_id user device s)
          (λ _ _. Fault)
          (generate_token_pair c b now token_id user device w)
  unfolding generate_token_pair
  generate_token_pair-stored token_id user device w s fresh owned =
      seq-Post (cleanup_existing_device_token c b now user.id device) (
        Post-mono (cleanup_existing_device_token c b now user.id device w)
          (cleanup_existing_device_token-Shrinks user.id device w)
          (λ _ w₁ first. seq-Post (enforce_token_limit c b now user.id) (
            Post-mono (enforce_token_limit c b now user.id w₁)
              (enforce_token_limit-Shrinks user.id w₁)
              (λ _ w₂ second. seq-Post (sign_access c b now user) (
                known-Post _ s.access_token w₂ s.signs_access (
                  seq-Post (sign_refresh c b now user token_id) (
                    known-Post _ s.refresh_token w₂ s.signs_refresh (
                      seq-Post (lift (c.hash s.refresh_token 10)) (
                        known-Post _ s.hashed w₂ s.hashes (
                          stored w₂
                            (Shrinks-fresh token_id w₁ w₂ second
                              (Shrinks-fresh token_id w w₁ first fresh))
                            (Shrinks-owned user.id w₁ w₂ second
                              (Shrinks-owned user.id w w₁ first owned)))))))))
              (λ _ _ f. f)))
          (λ _ _ f. elim f [ ]))
    where
      stored :
          (w₂ : World)
          → any (is_token token_id) w₂.tokens ≡ false
          → any (is_user user.id) w₂.users ≡ true
          → Post
              (IsIssued c now token_id user device s)
              (λ _ _. Fault)
              ((b.create_token (new_token now token_id user.id s.hashed device)
                  >> pure (record {
                    access_token = s.access_token;
                    refresh_token = s.refresh_token;
                    expires_in = access_token_seconds;
                  }))
                w₂)
      stored w₂ free there =
          seq-Post (b.create_token (new_token now token_id user.id s.hashed device)) (
            Post-mono (b.create_token (new_token now token_id user.id s.hashed device) w₂)
              (create_token-stored (new_token now token_id user.id s.hashed device) w₂ free there)
              (λ _ w' found. record { holds = (refl, refl, found) }) (λ _ _ f. f))
