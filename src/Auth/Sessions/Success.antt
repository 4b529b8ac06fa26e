-- ===== src/Auth/Sessions/Success.antt =====
-- Requests that deserve an answer get it: without a server failing, the right password signs in and
-- the current refresh token refreshes.
use demo_t.Auth.Sessions.Known.{
  require_active-active, require_verified-verified, check_password-fits, check_stored-fits,
  require_owner-found,
}
use mathlib.Core.Option
use demo_t.Base.{
  ◌+◌, ◌*◌, ℕ, String, true, false, some, ◌≡◌, refl, ◌∙◌, ap, ◌⊎◌, inl, inr, ltb, find, any, change,
  any_of_find, any_of_some, find-change, arith, ==_iff,
}
use demo_t.Errors.Codes.{ErrorCode}
use demo_t.Errors.Exceptions.{ok}
use demo_t.Auth.Rows.{
  User, RefreshToken, World, DeviceInfo, by_email, by_id, matches, is_user, is_token,
}
use demo_t.Auth.Action.{Post, seq-Post, lift, known-Post, rethrow-Post}
use demo_t.Auth.Backend.{Crypto, Backend, IsBackend, has_unique_ids}
use demo_t.Auth.Backend.Rules.{find_user-Post, find_token-Post, update_token-Post}
use demo_t.Auth.Permission.{refused_as}
use demo_t.Auth.Tokens.{
  AuthTokens, verify_refresh_token, update_token_usage, rotate_tokens, rotated, used, sign_access,
  sign_refresh,
}
use demo_t.Auth.Tokens.Issue.{Signs, IsIssued, generate_token_pair-stored}
use demo_t.Auth.Tokens.Renaming.{
  has_unique_ids-change_same, has_unique_ids-rename, find-rename, any-change_same,
}
use demo_t.Auth.Sessions.{
  require_active, require_verified, check_password, sign_in, require_stored, check_expiry,
  check_stored, require_owner, refresh_body, refresh_token,
}
use demo_t.Auth.Sessions.SignIn.{MaySignIn}
use demo_t.Auth.Sessions.Rotation.{
  Names, verify_refresh_token-Post, require_stored-found, check_expiry-live,
}

-- The right password for an active, verified account signs in, unless a server fails, if the token
-- id is not in use and the signing works: the answer is the signed pair, and the row of its refresh
-- token is stored, with the hash of that token, the user, the device and an expiry 7 days later.
pub sign_in-succeeds :
    {Fault : Type 0} (c : Crypto) (b : Backend) (L : IsBackend Fault b) (now : ℕ)
    (token_id email password : String) (device : DeviceInfo) (w : World) (u : User)
    (s : Signs c now token_id u)
    → MaySignIn c email password w u
    → any (is_token token_id) w.tokens ≡ false
    → Post
        (IsIssued c now token_id u device s)
        (λ _ _. Fault)
        (sign_in c b now token_id email password device w)
unfolding sign_in
sign_in-succeeds c b L now token_id email password device w u s (found, active, verified, fits)
      fresh =
    seq-Post (b.find_user (by_email (c.lower email))) (
      find_user-Post b L (by_email (c.lower email)) w
        (seq-Post (require_active (find (matches (by_email (c.lower email))) w.users)) (
          require_active-active c b now (find (matches (by_email (c.lower email))) w.users) u w
            found active
            (seq-Post (require_verified c b now u) (
              require_verified-verified c b now u w verified (
                seq-Post (check_password c b now password u) (
                  check_password-fits c b now password u w fits (
                    generate_token_pair-stored c b L now token_id u device w s fresh (
                      any_of_find (matches (by_email (c.lower email))) (is_user u.id) w.users u
                        found (ground (arith, ==_iff u.id u.id))))))))))
        (λ _ f. f))

-- What the presented refresh token needs: its row is stored under `id`, not expired, fits the token,
-- and has an owner.
abbrev pub MayRefresh : Crypto → ℕ → String → String → World → RefreshToken → User → Type 0
MayRefresh c now token id w stored u =
    Names c now token id
    × (find (is_token id) w.tokens ≡ some stored)
    × (ltb stored.expires_at now ≡ false)
    × (c.compare token stored.token ≡ ok true)
    × (find (matches (by_id stored.user_id)) w.users ≡ some u)

-- The pair is the signed one, and the row has moved to the new id.
abbrev pub IsRotated :
    (c : Crypto) (now : ℕ) (new_id : String) (user : User)
    → DeviceInfo
    → Signs c now new_id user
    → RefreshToken
    → AuthTokens
    → World
    → Type 0
IsRotated c now new_id user device s stored tokens w' =
    (tokens.access_token ≡ s.access_token)
    × (tokens.refresh_token ≡ s.refresh_token)
    × (find (is_token new_id) w'.tokens
        ≡ some (record stored {
          id = new_id;
          token = s.hashed;
          user_agent = some device.user_agent;
          ip_address = some device.ip;
          expires_at = now + 7 * 24 * 3600 * 1000;
          last_used_at = some now;
        }))

module _ {Fault : Type 0} (c : Crypto) (b : Backend) (L : IsBackend Fault b) (now : ℕ) where
  -- The usage mark is written to a row that is there.
  update_token_usage-marks :
      {Q : Unit {0} → World → Type 0} (id : String) (device : DeviceInfo) (w : World)
      (stored : RefreshToken)
      → find (is_token id) w.tokens ≡ some stored
      → has_unique_ids w.tokens ≡ true
      → Q tt (record w { tokens = change (is_token id) (used now device) w.tokens })
      → Post Q (λ _ _. Fault) (update_token_usage c b now id device w)
  unfolding update_token_usage
  update_token_usage-marks id device w stored found unique q =
      update_token-Post b L id (used now device) w q (λ e why. reason why)
    where
      reason :
          (Fault
            ⊎ (any (is_token id) w.tokens ≡ false)
            ⊎ (has_unique_ids (change (is_token id) (used now device) w.tokens) ≡ false))
          → Fault
      reason (inl f) = f
      reason (inr (inl gone)) = let there = any_of_some (is_token id) w.tokens stored found in cc
      reason (inr (inr twice)) =
          let once =
            has_unique_ids-change_same (is_token id) (used now device) w.tokens (λ _. refl) in
          cc

  rotate_tokens-moves :
      (new_id id : String) (user : User) (device : DeviceInfo) (w : World) (stored : RefreshToken)
      (s : Signs c now new_id user)
      → find (is_token id) w.tokens ≡ some (used now device stored)
      → any (is_token new_id) w.tokens ≡ false
      → has_unique_ids w.tokens ≡ true
      → Post
          (IsRotated c now new_id user device s stored)
          (λ _ _. Fault)
          (rotate_tokens c b now new_id user id device w)
  unfolding rotate_tokens
  rotate_tokens-moves new_id id user device w stored s found fresh unique =
      seq-Post (sign_access c b now user) (
        known-Post _ s.access_token w s.signs_access (
          seq-Post (sign_refresh c b now user new_id) (
            known-Post _ s.refresh_token w s.signs_refresh (
              seq-Post (lift (c.hash s.refresh_token 10)) (
                known-Post _ s.hashed w s.hashes (
                  seq-Post (b.update_token id (rotated now new_id s.hashed device)) (
                    update_token-Post b L id (rotated now new_id s.hashed device) w
                      (record {
                        holds = (
                          refl,
                          refl,
                          find-rename id new_id (rotated now new_id s.hashed device) (λ _. refl)
                                w.tokens fresh
                              ∙ ap (Option.map (rotated now new_id s.hashed device)) found,
                        );
                      })
                      (λ e why. reason why))))))))
    where
      reason :
          (Fault
            ⊎ (any (is_token id) w.tokens ≡ false)
            ⊎ (has_unique_ids (change (is_token id) (rotated now new_id s.hashed device) w.tokens)
                ≡ false))
          → Fault
      reason (inl f) = f
      reason (inr (inl gone)) =
          let there = any_of_some (is_token id) w.tokens (used now device stored) found in cc
      reason (inr (inr twice)) =
          let once =
            has_unique_ids-rename id new_id (rotated now new_id s.hashed device) (λ _. refl)
              w.tokens fresh unique in
          cc

  -- A refresh token whose row is stored, not expired, fits it and has an owner refreshes, unless a
  -- server fails, if the new id is not in use, the stored ids are unique and the signing works: the
  -- answer is the signed pair, and the row has moved to the new id, with the hash of the new refresh token, the
  -- device and an expiry 7 days later.
  pub refresh_token-succeeds :
      (new_id token id : String) (device : DeviceInfo) (w : World) (stored : RefreshToken)
      (u : User) (s : Signs c now new_id u)
      → MayRefresh c now token id w stored u
      → any (is_token new_id) w.tokens ≡ false
      → has_unique_ids w.tokens ≡ true
      → Post
          (IsRotated c now new_id u device s stored)
          (λ _ _. Fault)
          (refresh_token c b now new_id token device w)
  unfolding refresh_token refresh_body
  refresh_token-succeeds new_id token id device w stored u s (known, found, live, fits, owner) fresh
        unique =
      rethrow-Post (refresh_body c b now new_id token device)
        (refused_as ErrorCode.refresh_token_invalid) w
        (seq-Post (verify_refresh_token c b now token) (
          verify_refresh_token-Post c b now token id w known (
            seq-Post (b.find_token id) (
              find_token-Post b L id w
                (seq-Post (require_stored c b now (find (is_token id) w.tokens)) (
                  require_stored-found c b now (find (is_token id) w.tokens) stored w found (
                    seq-Post (b.find_user (by_id stored.user_id)) (
                      find_user-Post b L (by_id stored.user_id) w
                        (seq-Post (check_expiry c b now id stored) (
                          check_expiry-live c b now id stored w live (
                            seq-Post (check_stored c b now token stored) (
                              check_stored-fits c b now token stored w fits (
                                seq-Post
                                  (require_owner c b now
                                    (find (matches (by_id stored.user_id)) w.users))
                                  (require_owner-found c b now _ u w owner (
                                    seq-Post (update_token_usage c b now id device) (
                                      update_token_usage-marks id device w stored found unique
                                        (marked w found fresh unique)))))))))
                        (λ _ f. f)))))
                (λ _ f. f)))))
    where
      marked :
          (w : World)
          → find (is_token id) w.tokens ≡ some stored
          → any (is_token new_id) w.tokens ≡ false
          → has_unique_ids w.tokens ≡ true
          → Post
              (IsRotated c now new_id u device s stored)
              (λ _ _. Fault)
              (rotate_tokens c b now new_id u id device
                (record w { tokens = change (is_token id) (used now device) w.tokens }))
      marked w found fresh unique =
          rotate_tokens-moves new_id id u device _ stored s
            (find-change (is_token id) (used now device) w.tokens (λ _. refl)
              ∙ ap (Option.map (used now device)) found)
            (any-change_same new_id (is_token id) (used now device) w.tokens (λ _. refl) ∙ fresh)
            (has_unique_ids-change_same (is_token id) (used now device) w.tokens (λ _. refl)
              ∙ unique)
