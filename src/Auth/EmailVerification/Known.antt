-- ===== src/Auth/EmailVerification/Known.antt =====
-- The checks of a verification where they are known to pass.
use demo_t.Base.{ℕ, String, true, false, not, Option, some, ◌≡◌, ◌≢◌, ◌===◌, eq_iff, arith}
use demo_t.Errors.Exceptions.{Exception}
use demo_t.Auth.Rows.{User, World}
use demo_t.Auth.Action.{Post, if-Post}
use demo_t.Auth.Users.{require_found}
use demo_t.Auth.EmailVerification.{require_entry, require_number, require_unverified}

module _ {E : Exception → World → Type 0} where
  pub require_entry-known :
      {Q : String → World → Type 0} (found : Option String) (entry : String) (w : World)
      → found ≡ some entry
      → entry ≢ ""
      → Q entry w
      → Post Q E (require_entry found w)
  unfolding require_entry
  require_entry-known found entry w same text q = rw same (
      if-Post (entry === "") _ _ w (λ empty. elim (text ((eq_iff entry "").0 empty)) [ ])
        (λ _. record { holds = q }))

  pub require_number-known :
      {Q : ℕ → World → Type 0} (found : Option ℕ) (n : ℕ) (w : World)
      → found ≡ some n
      → Q n w
      → Post Q E (require_number found w)
  unfolding require_number
  require_number-known found n w same q = rw same (record { holds = q })

  pub require_found-known :
      {Q : User → World → Type 0} (found : Option User) (u : User) (w : World)
      → found ≡ some u
      → Q u w
      → Post Q E (require_found found w)
  unfolding require_found
  require_found-known found u w same q = rw same (record { holds = q })

  pub require_unverified-known :
      {Q : Unit {0} → World → Type 0} (u : User) (w : World)
      → u.is_active ≡ true
      → u.email_verified ≡ false
      → Q tt w
      → Post Q E (require_unverified u w)
  unfolding require_unverified
  require_unverified-known u w active fresh q =
      if-Post (not u.is_active) _ _ w (λ inactive. absurd (ground arith))
        (λ _. if-Post u.email_verified _ _ w (λ done. cc) (λ _. record { holds = q }))
