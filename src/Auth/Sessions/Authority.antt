-- ===== src/Auth/Sessions/Authority.antt =====
-- What the methods share that act on another account: the bearer of the access token is identified,
-- the target's row is read, and the permission is checked.
use demo_t.Base.{ℕ, String, true, some, ◌≡◌, find}
use demo_t.Errors.Exceptions.{Exception}
use demo_t.Auth.Rows.{User, World, by_id, matches}
use demo_t.Auth.Action.{Action, Post, ◌>>=◌, ◌>>◌, seq-Post}
use demo_t.Auth.Backend.{Crypto, Backend, IsBackend}
use demo_t.Auth.Backend.Rules.{find_user-Post}
use demo_t.Auth.Permission.{
  UserDto, extract_user_from_access_token, can_user_perform_action_on_user,
}
use demo_t.Auth.Permission.Rules.{MayActOn, can_user_perform_action_on_user_iff}
use demo_t.Auth.Permission.Identity.{Identifies, extract_user-Post}
use demo_t.Auth.Sessions.{require_active, require_allowed}
use demo_t.Auth.Sessions.Guards.{require_active-Post, require_allowed-Post}

-- The token's bearer may act on the account with this id, which is there.
abbrev pub HasAuthority : Crypto → ℕ → String → ℕ → World → UserDto → User → Type 0
HasAuthority c now token id w current target =
    Identifies c now token w current
    × (find (matches (by_id id)) w.users ≡ some target)
    × MayActOn current target

module _ {A : Type 0} {Q : A → World → Type 0} {E : Exception → World → Type 0} {Fault : Type 0}
    (c : Crypto) (b : Backend) (L : IsBackend Fault b) (now : ℕ) where
  -- What runs after the checks may rely on them, and a refusal changes nothing.
  pub authority-Post :
      (token : String) (id : ℕ) (k : UserDto → User → Action A) (w : World)
      → ((current : UserDto) (target : User)
          → HasAuthority c now token id w current target
          → target.is_active ≡ true
          → Post Q E (k current target w))
      → ((e : Exception) → E e w)
      → Post Q E (
          (extract_user_from_access_token c b now token >>= λ current.
          b.find_user (by_id id) >>= λ found. require_active found >>= λ target.
          require_allowed (can_user_perform_action_on_user current target) >> k current target)
            w)
  authority-Post token id k w q r = seq-Post (extract_user_from_access_token c b now token) (
      extract_user-Post c b L now token w
        (λ current known. seq-Post (b.find_user (by_id id)) (
          find_user-Post b L (by_id id) w
            (seq-Post (require_active (find (matches (by_id id)) w.users)) (
              require_active-Post (find (matches (by_id id)) w.users) w
                (λ target found active.
                  seq-Post (require_allowed (can_user_perform_action_on_user current target)) (
                    require_allowed-Post (can_user_perform_action_on_user current target) w
                      (λ may.
                        q current target
                          (known, found, (can_user_perform_action_on_user_iff current target).0 may)
                          active)
                      r))
                r))
            (λ e _. r e)))
        r)
