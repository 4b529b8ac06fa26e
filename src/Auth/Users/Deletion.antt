-- ===== src/Auth/Users/Deletion.antt =====
-- Deleting an account, softly and for good.
use mathlib.Core.Option
use demo_t.Base.{
  ℕ, String, Bool, true, false, Option, none, some, List, ◌≡◌, refl, sym, ap, find, change,
  drop_where, find-change,
}
use demo_t.Errors.Exceptions.{Exception}
use demo_t.Auth.Rows.{User, World, by_id, matches, is_user, is_token_of}
use demo_t.Auth.Action.{Post, Post-mono, seq-Post}
use demo_t.Auth.Backend.{Crypto, Backend, IsBackend, orphaned_by, touched}
use demo_t.Auth.Backend.Rules.{
  find_user-Post, delete_tokens-Post, update_user-Post, delete_user-Post, transaction-Post,
}
use demo_t.Auth.Permission.{
  UserDto, can_user_perform_action_on_user, extract_user_from_access_token,
}
use demo_t.Auth.Permission.Identity.{extract_user-Post}
use demo_t.Auth.Permission.Rules.{can_user_perform_action_on_user_iff}
use demo_t.Auth.Sessions.{require_allowed}
use demo_t.Auth.Sessions.Guards.{require_allowed-Post}
use demo_t.Auth.Sessions.Authority.{HasAuthority, authority-Post}
use demo_t.Auth.Users.{deactivated, deactivate, require_found, soft_delete_user, hard_delete_user}

-- The state after a soft deletion.
abbrev pub soft_deleted : ℕ → ℕ → World → World
soft_deleted now id w = record w {
  users = change (is_user id) (λ u. record u { is_active = false; updated_at = now }) w.users;
  tokens = drop_where (is_token_of id) w.tokens;
}

-- The state after a hard deletion, which takes the account's tokens with it.
abbrev pub hard_deleted : ℕ → World → World
hard_deleted id w = record w {
  users = drop_where (is_user id) w.users;
  tokens = drop_where (orphaned_by (is_user id) w.users) w.tokens;
}

module _ {Q : User → World → Type 0} {E : Exception → World → Type 0} where
  require_found-Post :
      (found : Option User) (w : World)
      → ((u : User) → found ≡ some u → Q u w)
      → ((e : Exception) → E e w)
      → Post Q E (require_found found w)
  unfolding require_found
  require_found-Post none w q k = record { holds = k _ }
  require_found-Post (some u) w q k = record { holds = q u refl }

-- The row that is found after a deactivation is a deactivated one.
find-deactivated :
    (id now : ℕ) (us : List User) (u : User)
    → find (is_user id) (change (is_user id) (touched deactivated now) us) ≡ some u
    → u.is_active ≡ false
find-deactivated id now us u h =
    found (find (is_user id) us)
      (rw (find-change (is_user id) (touched deactivated now) us (λ _. refl)) at h)
  where
    row : Option User → Bool
    row none = false
    row (some v) = v.is_active

    found :
        (o : Option User) → Option.map (touched deactivated now) o ≡ some u → u.is_active ≡ false
    found none e = cc
    found (some v) e = sym (ap row e)

module _ {Fault : Type 0} (c : Crypto) (b : Backend) (L : IsBackend Fault b) (now : ℕ) where
  deactivate-Post :
      (id : ℕ) (w : World)
      → Post
          (λ u w'. (u.is_active ≡ false) × (w' ≡ soft_deleted now id w))
          (λ _ _. Unit {0})
          (deactivate c b now id w)
  unfolding deactivate
  deactivate-Post id w = seq-Post (b.delete_tokens (is_token_of id)) (
      delete_tokens-Post b L (is_token_of id) w
        (update_user-Post b L id deactivated now _
          (λ u found. (find-deactivated id now w.users u found, refl)) (λ _ _. tt))
        (λ _ _. tt))

  -- A soft deletion that returns was asked for by a bearer with authority over the active target, and
  -- has deactivated the target's row and removed all of its refresh tokens, and nothing else; one that
  -- throws changed nothing, also where the tokens were deleted before the failure.
  pub soft_delete_user-authorised :
      (token : String) (id : ℕ) (w : World)
      → Post
          (λ u w'.
            (current : UserDto) × (target : User) × HasAuthority c now token id w current target
            × (target.is_active ≡ true)
            × (u.is_active ≡ false)
            × (w' ≡ soft_deleted now id w))
          (λ _ w'. w' ≡ w)
          (soft_delete_user c b now token id w)
  unfolding soft_delete_user
  soft_delete_user-authorised token id w =
      authority-Post c b L now token id _ w
        (λ current target may active.
          transaction-Post b L (λ _ _. Unit {0}) (deactivate c b now id) w
            (Post-mono (deactivate c b now id w) (deactivate-Post id w)
              (λ u _ (inactive, done). (current, target, may, active, inactive, done))
              (λ _ _ _. tt))
            (λ _ _. refl))
        (λ _. refl)

  -- A deletion for good that returns was asked for by a bearer with authority over the target, active
  -- or not, and has removed the target's row with the tokens that refer to it, and nothing else; one
  -- that throws changed nothing.
  pub hard_delete_user-authorised :
      (token : String) (id : ℕ) (w : World)
      → Post
          (λ _ w'.
            (current : UserDto) × (target : User) × HasAuthority c now token id w current target
            × (w' ≡ hard_deleted id w))
          (λ _ w'. w' ≡ w)
          (hard_delete_user c b now token id w)
  unfolding hard_delete_user
  hard_delete_user-authorised token id w = seq-Post (extract_user_from_access_token c b now token) (
      extract_user-Post c b L now token w
        (λ current known. seq-Post (b.find_user (by_id id)) (
          find_user-Post b L (by_id id) w
            (seq-Post (require_found (find (matches (by_id id)) w.users)) (
              require_found-Post (find (matches (by_id id)) w.users) w
                (λ target found.
                  seq-Post (require_allowed (can_user_perform_action_on_user current target)) (
                    require_allowed-Post (can_user_perform_action_on_user current target) w
                      (λ may.
                        delete_user-Post b L id w
                          (
                            current,
                            target,
                            (
                              known,
                              found,
                              (can_user_perform_action_on_user_iff current target).0 may,
                            ),
                            refl,
                          )
                          (λ _ _. refl))
                      (λ _. refl)))
                (λ _. refl)))
            (λ _ _. refl)))
        (λ _. refl))
