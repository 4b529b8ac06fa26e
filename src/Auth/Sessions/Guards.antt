-- ===== src/Auth/Sessions/Guards.antt =====
-- The checks that several methods share, as proof rules.
use demo_t.Base.{true, Option, none, some, ◌≡◌, refl}
use demo_t.Errors.Exceptions.{Exception}
use demo_t.Auth.Rows.{User, World}
use demo_t.Auth.Action.{Post, if-Post}
use demo_t.Auth.Permission.{Authorization, allowed, denied}
use demo_t.Auth.Sessions.{require_active, require_allowed}

module _ {Q : User → World → Type 0} {E : Exception → World → Type 0} where
  pub require_active-Post :
      (found : Option User) (w : World)
      → ((u : User) → found ≡ some u → u.is_active ≡ true → Q u w)
      → ((e : Exception) → E e w)
      → Post Q E (require_active found w)
  unfolding require_active
  require_active-Post none w q k = record { holds = k _ }
  require_active-Post (some u) w q k =
      if-Post u.is_active _ _ w (λ active. record { holds = q u refl active })
        (λ _. record { holds = k _ })

module _ {Q : Unit {0} → World → Type 0} {E : Exception → World → Type 0} where
  pub require_allowed-Post :
      (answer : Authorization) (w : World)
      → (answer ≡ allowed → Q tt w)
      → ((e : Exception) → E e w)
      → Post Q E (require_allowed answer w)
  unfolding require_allowed
  require_allowed-Post allowed w q k = record { holds = q refl }
  require_allowed-Post (denied reason) w q k = record { holds = k _ }
