-- ===== src/Auth/Sessions/Rotation.antt =====
-- A refresh token is good for one refresh, and a stolen one ends every session of its user.
use demo_t.Base.{
  ℕ, String, false, Option, none, some, List, [], ◌∷◌, ◌≡◌, ◌≢◌, refl, ◌⊎◌, inl, inr, arith, eq_iff,
  find, change, drop_where, ltb,
}
use demo_t.Errors.Codes.{HttpStatus, ErrorCode}
use demo_t.Errors.Exceptions.{Exception, ok, http_error}
use demo_t.Auth.Rows.{RefreshToken, User, World, DeviceInfo, by_id, is_token, is_token_of}
use demo_t.Auth.Action.{Post, seq-Post, seq-any, lift, lift-Post, Post-mono, rethrow-Post}
use demo_t.Auth.Backend.{Crypto, Backend, IsBackend, refresh}
use demo_t.Auth.Backend.Rules.{
  find_user-Post, find_token-Post, delete_tokens-Post, update_token-Post,
}
use demo_t.Auth.Permission.{refused_as}
use demo_t.Auth.Tokens.{
  get_refresh_token_secret, refresh_token_id, verify_refresh_token, revoke_all_refresh_tokens,
  update_token_usage, rotate_tokens, rotated, sign_access, sign_refresh,
}
use demo_t.Auth.Sessions.{
  require_stored, check_expiry, check_stored, require_owner, refresh_body, refresh_token,
}

-- The presented token verifies and names this row.
abbrev pub Names : Crypto → ℕ → String → String → Type 0
Names c now token id =
    (user_id : ℕ) × (c.verify (get_refresh_token_secret c) now token
      ≡ ok (refresh user_id id "refresh"))

module _ {Q : String → World → Type 0} {E : Exception → World → Type 0} where
  pub verify_refresh_token-Post :
      (c : Crypto) (b : Backend) (now : ℕ) (token id : String) (w : World)
      → Names c now token id
      → Q id w
      → Post Q E (verify_refresh_token c b now token w)
  unfolding verify_refresh_token refresh_token_id
  verify_refresh_token-Post c b now token id w (user_id, known) q = rw known (record { holds = q })

-- Rotating a row under a new id leaves no row under the old one.
find-change_id :
    (id : String) (f : RefreshToken → RefreshToken) (ts : List RefreshToken)
    → ((t : RefreshToken) → (f t).id ≢ id)
    → find (is_token id) (change (is_token id) f ts) ≡ none
find-change_id id f [] moved = refl
find-change_id id f (t ∷ ts) moved =
    ground (arith, moved t, eq_iff (f t).id id, find-change_id id f ts moved)

module _ {Q : RefreshToken → World → Type 0} {E : Exception → World → Type 0} (c : Crypto)
    (b : Backend) (now : ℕ) where
  pub require_stored-found :
      (found : Option RefreshToken) (stored : RefreshToken) (w : World)
      → found ≡ some stored
      → Q stored w
      → Post Q E (require_stored c b now found w)
  unfolding require_stored
  require_stored-found found stored w same q = rw same (record { holds = q })

module _ {Q : Unit {0} → World → Type 0} {E : Exception → World → Type 0} (c : Crypto) (b : Backend)
    (now : ℕ) where
  pub check_expiry-live :
      (id : String) (stored : RefreshToken) (w : World)
      → ltb stored.expires_at now ≡ false
      → Q tt w
      → Post Q E (check_expiry c b now id stored w)
  unfolding check_expiry
  check_expiry-live id stored w live q = rw live (record { holds = q })

  -- A row that the token does not fit ends every session of its user.
  check_stored-misfit :
      {Fault : Type 0} (L : IsBackend Fault b) (token : String) (stored : RefreshToken) (w : World)
      → c.compare token stored.token ≡ ok false
      → E
          (http_error HttpStatus.unauthorized ErrorCode.refresh_token_invalid)
          (record w { tokens = drop_where (is_token_of stored.user_id) w.tokens })
      → ((e : Exception) → Fault → E e w)
      → Post Q E (check_stored c b now token stored w)
  unfolding check_stored revoke_all_refresh_tokens
  check_stored-misfit L token stored w misfit q k = rw misfit (
      seq-Post (b.delete_tokens (is_token_of stored.user_id))
        (delete_tokens-Post b L (is_token_of stored.user_id) w (record { holds = q }) k))

module _ {Fault : Type 0} (c : Crypto) (b : Backend) (L : IsBackend Fault b) (now : ℕ) where
  rotate_tokens-retires :
      (new_id : String) (user : User) (id : String) (device : DeviceInfo) (w : World)
      → new_id ≢ id
      → Post
          (λ _ w'. find (is_token id) w'.tokens ≡ none)
          (λ _ _. Unit {0})
          (rotate_tokens c b now new_id user id device w)
  unfolding rotate_tokens
  rotate_tokens-retires new_id user id device w fresh = seq-Post (sign_access c b now user) (
      lift-Post _ w
        (λ access_token _. seq-Post (sign_refresh c b now user new_id) (
          lift-Post _ w
            (λ refresh_token _. seq-Post (lift (c.hash refresh_token 10)) (
              lift-Post _ w
                (λ hashed _. seq-Post (b.update_token id (rotated now new_id hashed device)) (
                  update_token-Post b L id (rotated now new_id hashed device) w
                    (record { holds = find-change_id id _ w.tokens (λ _. fresh) }) (λ _ _. tt)))
                (λ _ _. tt)))
            (λ _ _. tt)))
        (λ _ _. tt))

  -- Refreshing with a token that names the row `id` leaves no row under that id, if it returns.
  refresh_token-retires :
      (new_id token id : String) (device : DeviceInfo) (w : World)
      → Names c now token id
      → new_id ≢ id
      → Post
          (λ _ w'. find (is_token id) w'.tokens ≡ none)
          (λ _ _. Unit {0})
          (refresh_token c b now new_id token device w)
  unfolding refresh_token refresh_body
  refresh_token-retires new_id token id device w known fresh =
      rethrow-Post (refresh_body c b now new_id token device)
        (refused_as ErrorCode.refresh_token_invalid) w
        (seq-Post (verify_refresh_token c b now token) (
          verify_refresh_token-Post c b now token id w known (
            seq-any (b.find_token id) _
              (λ found _.
                seq-any (require_stored c b now found) _
                  (λ stored _.
                    seq-any (b.find_user (by_id stored.user_id)) _
                      (λ owner _.
                        seq-any (check_expiry c b now id stored) _
                          (λ _ _.
                            seq-any (check_stored c b now token stored) _
                              (λ _ _.
                                seq-any (require_owner c b now owner) _
                                  (λ user _.
                                    seq-any (update_token_usage c b now id device) _
                                      (λ _ w'. rotate_tokens-retires new_id user id device w' fresh)
                                      (λ _ _. tt))
                                  (λ _ _. tt))
                              (λ _ _. tt))
                          (λ _ _. tt))
                      (λ _ _. tt))
                  (λ _ _. tt))
              (λ _ _. tt))))

  -- A token whose row is gone is refused, and the refusal changes nothing.
  refresh_token-unknown :
      (new_id token id : String) (device : DeviceInfo) (w : World)
      → Names c now token id
      → find (is_token id) w.tokens ≡ none
      → Post (λ _ _. ⊥) (λ _ w'. w' ≡ w) (refresh_token c b now new_id token device w)
  unfolding refresh_token refresh_body require_stored
  refresh_token-unknown new_id token id device w known gone =
      rethrow-Post (refresh_body c b now new_id token device)
        (refused_as ErrorCode.refresh_token_invalid) w
        (seq-Post (verify_refresh_token c b now token) (
          verify_refresh_token-Post c b now token id w known (
            seq-Post (b.find_token id)
              (find_token-Post b L id w (rw gone (record { holds = refl })) (λ _ _. refl)))))

  -- A refresh token whose row is stored and not expired but does not fit its hash is refused with
  -- REFRESH_TOKEN_INVALID and ends every session of the row's user, and nothing else is changed, unless
  -- a server fails and then nothing is.
  pub refresh_token-theft :
      (new_id token id : String) (device : DeviceInfo) (w : World) (stored : RefreshToken)
      → Names c now token id
      → find (is_token id) w.tokens ≡ some stored
      → ltb stored.expires_at now ≡ false
      → c.compare token stored.token ≡ ok false
      → Post
          (λ _ _. ⊥)
          (λ e w'.
            ((e ≡ http_error HttpStatus.unauthorized ErrorCode.refresh_token_invalid)
              × (w' ≡ record w { tokens = drop_where (is_token_of stored.user_id) w.tokens }))
            ⊎ (Fault × (w' ≡ w)))
          (refresh_token c b now new_id token device w)
  unfolding refresh_token refresh_body refused_as
  refresh_token-theft new_id token id device w stored known found live misfit =
      rethrow-Post (refresh_body c b now new_id token device)
        (refused_as ErrorCode.refresh_token_invalid) w
        (seq-Post (verify_refresh_token c b now token) (
          verify_refresh_token-Post c b now token id w known (
            seq-Post (b.find_token id) (
              find_token-Post b L id w
                (seq-Post (require_stored c b now (find (is_token id) w.tokens)) (
                  require_stored-found c b now (find (is_token id) w.tokens) stored w found (
                    seq-Post (b.find_user (by_id stored.user_id)) (
                      find_user-Post b L (by_id stored.user_id) w
                        (seq-Post (check_expiry c b now id stored) (
                          check_expiry-live c b now id stored w live (
                            seq-Post (check_stored c b now token stored) (
                              check_stored-misfit c b now L token stored w misfit (inl (refl, refl))
                                (λ _ f. inr (f, refl))))))
                        (λ _ f. inr (f, refl))))))
                (λ _ f. inr (f, refl))))))

module _ {Fault : Type 0} (c : Crypto) (b : Backend) (L : IsBackend Fault b) where
  -- After a refresh that returned and gave the row another id, the same token, if it still verifies,
  -- is refused at any later time, and the refusal changes nothing.
  pub refresh_token-single_use :
      (now : ℕ) (new_id token id : String) (device : DeviceInfo) (w : World) (later : ℕ)
      (later_id : String) (later_device : DeviceInfo)
      → Names c now token id
      → Names c later token id
      → new_id ≢ id
      → Post
          (λ _ w'.
            Post
              (λ _ _. ⊥)
              (λ _ w''. w'' ≡ w')
              (refresh_token c b later later_id token later_device w'))
          (λ _ _. Unit {0})
          (refresh_token c b now new_id token device w)
  refresh_token-single_use now new_id token id device w later later_id later_device known again
        fresh =
      Post-mono (refresh_token c b now new_id token device w)
        (refresh_token-retires c b L now new_id token id device w known fresh)
        (λ _ w' gone.
          refresh_token-unknown c b L later later_id token id later_device w' again gone)
        (λ _ _ _. tt)
