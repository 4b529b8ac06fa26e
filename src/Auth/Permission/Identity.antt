-- ===== src/Auth/Permission/Identity.antt =====
-- What an access token proves about its bearer.
use demo_t.Base.{ℕ, String, true, not, Option, none, some, ◌≡◌, refl, find, arith}
use demo_t.Errors.Codes.{ErrorCode}
use demo_t.Errors.Exceptions.{Exception, ok}
use demo_t.Auth.Rows.{User, World, matches}
use demo_t.Auth.Action.{Post, lift, seq-Post, if-Post, rethrow-Post, lift-Post}
use demo_t.Auth.Backend.{Crypto, Backend, IsBackend, Payload}
use demo_t.Auth.Backend.Rules.{find_user-Post}
use demo_t.Auth.Permission.{
  UserDto, to_user_dto, key_of, agrees, check_user, identify, refused_as,
  extract_user_from_access_token,
}

-- The token verifies, and the row that it names is active and agrees with it.
abbrev pub Identifies : Crypto → ℕ → String → World → UserDto → Type 0
Identifies c now token w current =
    (payload : Payload) × (u : User) × (c.verify c.jwt_secret now token ≡ ok payload)
    × (find (matches (key_of payload)) w.users ≡ some u)
    × (u.is_active ≡ true)
    × (agrees payload u ≡ true)
    × (current ≡ to_user_dto u)

module _ {Q : UserDto → World → Type 0} {E : Exception → World → Type 0} where
  check_user-Post :
      (payload : Payload) (found : Option User) (w : World)
      → ((u : User)
          → found ≡ some u
          → u.is_active ≡ true
          → agrees payload u ≡ true
          → Q (to_user_dto u) w)
      → ((e : Exception) → E e w)
      → Post Q E (check_user payload found w)
  unfolding check_user
  check_user-Post payload none w q k = record { holds = k _ }
  check_user-Post payload (some u) w q k =
      if-Post (not u.is_active) _ _ w (λ _. record { holds = k _ })
        (λ active.
          if-Post (not (agrees payload u)) _ _ w (λ _. record { holds = k _ })
            (λ same. record { holds = q u refl (ground arith) (ground arith) }))

module _ {Q : UserDto → World → Type 0} {E : Exception → World → Type 0} where
  -- A method that goes on after the identity check may rely on it, and a refusal changes nothing.
  pub extract_user-Post :
      {Fault : Type 0} (c : Crypto) (b : Backend) (L : IsBackend Fault b) (now : ℕ) (token : String)
      (w : World)
      → ((current : UserDto) → Identifies c now token w current → Q current w)
      → ((e : Exception) → E e w)
      → Post Q E (extract_user_from_access_token c b now token w)
  unfolding extract_user_from_access_token identify
  extract_user-Post c b L now token w q k =
      rethrow-Post (identify c b now token) (refused_as ErrorCode.invalid_token) w (
        seq-Post (lift (c.verify c.jwt_secret now token)) (
          lift-Post (c.verify c.jwt_secret now token) w
            (λ payload verified. seq-Post (b.find_user (key_of payload)) (
              find_user-Post b L (key_of payload) w
                (check_user-Post payload (find (matches (key_of payload)) w.users) w
                  (λ u found active same.
                    q (to_user_dto u) (payload, u, verified, found, active, same, refl))
                  (λ e. k _))
                (λ e _. k _)))
            (λ e _. k _)))
