-- ===== src/Auth/Sessions/Known.antt =====
-- The checks of sign-in and refresh where they are known to pass.
use demo_t.Base.{ℕ, String, true, Option, some, ◌≡◌}
use demo_t.Errors.Exceptions.{Exception, ok}
use demo_t.Auth.Rows.{User, RefreshToken, World}
use demo_t.Auth.Action.{Post, if-Post, seq-Post, lift, known-Post}
use demo_t.Auth.Backend.{Crypto, Backend}
use demo_t.Auth.Sessions.{
  require_active, require_verified, check_password, check_stored, require_owner,
}

module _ {E : Exception → World → Type 0} (c : Crypto) (b : Backend) (now : ℕ) where
  pub require_active-active :
      {Q : User → World → Type 0} (found : Option User) (u : User) (w : World)
      → found ≡ some u
      → u.is_active ≡ true
      → Q u w
      → Post Q E (require_active found w)
  unfolding require_active
  require_active-active found u w same active q =
      rw same (if-Post u.is_active _ _ w (λ _. record { holds = q }) (λ inactive. cc))

  pub require_verified-verified :
      {Q : Unit {0} → World → Type 0} (u : User) (w : World)
      → u.email_verified ≡ true
      → Q tt w
      → Post Q E (require_verified c b now u w)
  unfolding require_verified
  require_verified-verified u w verified q = rw verified (record { holds = q })

  pub check_password-fits :
      {Q : Unit {0} → World → Type 0} (password : String) (u : User) (w : World)
      → c.compare password u.password ≡ ok true
      → Q tt w
      → Post Q E (check_password c b now password u w)
  unfolding check_password
  check_password-fits password u w fits q =
      seq-Post (lift (c.compare password u.password))
        (known-Post _ true w fits (record { holds = q }))

  pub check_stored-fits :
      {Q : Unit {0} → World → Type 0} (token : String) (stored : RefreshToken) (w : World)
      → c.compare token stored.token ≡ ok true
      → Q tt w
      → Post Q E (check_stored c b now token stored w)
  unfolding check_stored
  check_stored-fits token stored w fits q =
      seq-Post (lift (c.compare token stored.token))
        (known-Post _ true w fits (record { holds = q }))

  pub require_owner-found :
      {Q : User → World → Type 0} (found : Option User) (u : User) (w : World)
      → found ≡ some u
      → Q u w
      → Post Q E (require_owner c b now found w)
  unfolding require_owner
  require_owner-found found u w same q = rw same (record { holds = q })
