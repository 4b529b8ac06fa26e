-- ===== src/Auth/Sessions/SignIn.antt =====
-- What a sign-in that returns has established.
use demo_t.Base.{ℕ, String, true, some, ◌≡◌, ◌≤◌, find, keep, length}
use demo_t.Errors.Exceptions.{Exception, ok}
use demo_t.Auth.Rows.{User, World, DeviceInfo, by_email, matches}
use demo_t.Auth.Action.{Post, if-Post, seq-Post, lift, lift-Post, Post-mono}
use demo_t.Auth.Backend.{Crypto, Backend, IsBackend}
use demo_t.Auth.Backend.Rules.{find_user-Post}
use demo_t.Auth.TokenConfig.{max_refresh_tokens_per_user}
use demo_t.Auth.Tokens.{generate_token_pair, is_active_token_of}
use demo_t.Auth.Tokens.Limit.{generate_token_pair-limit}
use demo_t.Auth.Sessions.{require_active, require_verified, check_password, sign_in}
use demo_t.Auth.Sessions.Guards.{require_active-Post}

-- The account holds the email, is active and verified, and the password fits its hash.
abbrev pub MaySignIn : Crypto → String → String → World → User → Type 0
MaySignIn c email password w u =
    (find (matches (by_email (c.lower email))) w.users ≡ some u)
    × (u.is_active ≡ true)
    × (u.email_verified ≡ true)
    × (c.compare password u.password ≡ ok true)

module _ {Q : Unit {0} → World → Type 0} {E : Exception → World → Type 0} (c : Crypto) (b : Backend)
    (now : ℕ) where
  check_password-Post :
      (password : String) (u : User) (w : World)
      → (c.compare password u.password ≡ ok true → Q tt w)
      → ((e : Exception) → E e w)
      → Post Q E (check_password c b now password u w)
  unfolding check_password
  check_password-Post password u w q k = seq-Post (lift (c.compare password u.password)) (
      lift-Post (c.compare password u.password) w
        (λ is_match same.
          if-Post is_match _ _ w (λ fits. record { holds = q (rw fits at same) })
            (λ _. record { holds = k _ }))
        (λ e _. k e))

-- A sign-in that returns was for an active account with a verified email and the right
-- password, and leaves that account with at most five active refresh tokens, whatever it had before.
pub sign_in-establishes :
    {Fault : Type 0} (c : Crypto) (b : Backend) (L : IsBackend Fault b) (now : ℕ)
    (token_id email password : String) (device : DeviceInfo) (w : World)
    → Post
        (λ _ w'.
          (u : User) × MaySignIn c email password w u
          × (length (keep (is_active_token_of u.id now) w'.tokens) ≤ max_refresh_tokens_per_user))
        (λ _ _. Unit {0})
        (sign_in c b now token_id email password device w)
unfolding sign_in require_verified
sign_in-establishes c b L now token_id email password device w =
    seq-Post (b.find_user (by_email (c.lower email))) (
      find_user-Post b L (by_email (c.lower email)) w
        (seq-Post (require_active (find (matches (by_email (c.lower email))) w.users)) (
          require_active-Post (find (matches (by_email (c.lower email))) w.users) w
            (λ u found active. seq-Post (require_verified c b now u) (
              if-Post u.email_verified _ _ w
                (λ verified. record {
                  holds = seq-Post (check_password c b now password u) (
                      check_password-Post c b now password u w
                        (λ fits.
                          Post-mono (generate_token_pair c b now token_id u device w)
                            (generate_token_pair-limit b L c now token_id u device w)
                            (λ _ w' limit. (u, (found, active, verified, fits), limit))
                            (λ _ _ _. tt))
                        (λ _. tt));
                })
                (λ _. record { holds = tt })))
            (λ _. tt)))
        (λ _ _. tt))
