-- ===== src/Auth/Sessions/Verifying.antt =====
-- What the verification of an access token says.
use demo_t.Base.{ℕ, String, Option, none, some, List, [], ◌∷◌, ◌≡◌, refl, ◌⊎◌, inl, inr, find}
use demo_t.Errors.Exceptions.{Exception, ok, err}
use demo_t.Auth.Rows.{User, World, missing_id, matches}
use demo_t.Auth.Action.{Post, seq-Post, try_catch-Post, lift, lift-Post}
use demo_t.Auth.Backend.{Crypto, Backend, IsBackend, FindFault, Payload, access, refresh}
use demo_t.Auth.Backend.Rules.{find_user-Post}
use demo_t.Auth.Permission.{key_of}
use demo_t.Auth.Sessions.{Verification, valid, invalid, require_existing, verify_body, verify_token}

-- A valid answer carries the payload of a token that verifies and names a row, active or not; an invalid
-- one has a token that does not verify, or names no row, or a server failed.
abbrev pub IsAnswer : Type 0 → Crypto → ℕ → String → World → Verification → Type 0
IsAnswer Fault c now token w (valid payload) =
    (c.verify c.jwt_secret now token ≡ ok payload)
    × ((u : User) × (find (matches (key_of payload)) w.users ≡ some u))
IsAnswer Fault c now token w (invalid e) =
    (c.verify c.jwt_secret now token ≡ err e)
    ⊎ ((payload : Payload) × (c.verify c.jwt_secret now token ≡ ok payload)
        × (find (matches (key_of payload)) w.users ≡ none))
    ⊎ Fault

pub find-missing_id : (us : List User) → find (matches missing_id) us ≡ none
find-missing_id [] = refl
find-missing_id (u ∷ us) = find-missing_id us

-- A query by a payload throws where a server failed, or for a payload without an id, which names no row.
fault_or_missing :
    {Fault P : Type 0} (payload : Payload) (w : World)
    → FindFault Fault (key_of payload)
    → (find (matches (key_of payload)) w.users ≡ none → P)
    → P ⊎ Fault
fault_or_missing (access id email role) w f k = inr f
fault_or_missing (refresh user_id token_id type) w f k = inl (k (find-missing_id w.users))

require_existing-Post :
    {Q : Verification → World → Type 0} {E : Exception → World → Type 0} (c : Crypto) (b : Backend)
    (now : ℕ) (payload : Payload) (found : Option User) (w : World)
    → ((u : User) → found ≡ some u → Q (valid payload) w)
    → ((e : Exception) → found ≡ none → E e w)
    → Post Q E (require_existing c b now payload found w)
unfolding require_existing
require_existing-Post c b now payload none w q k = record { holds = k _ refl }
require_existing-Post c b now payload (some u) w q k = record { holds = q u refl }

-- The verification of an access token never throws and changes nothing: it says valid only of a token
-- that verifies and names a row, which need not be an active one, and invalid only of a token that does
-- not verify, or names no row, or where a server failed.
pub verify_token-IsAnswer :
    {Fault : Type 0} (c : Crypto) (b : Backend) (L : IsBackend Fault b) (now : ℕ) (token : String)
    (w : World)
    → Post
        (λ v w'. (w' ≡ w) × IsAnswer Fault c now token w v)
        (λ _ _. ⊥)
        (verify_token c b now token w)
unfolding verify_token verify_body
verify_token-IsAnswer c b L now token w = try_catch-Post (verify_body c b now token) (
    seq-Post (lift (c.verify c.jwt_secret now token)) (
      lift-Post (c.verify c.jwt_secret now token) w
        (λ payload verified. seq-Post (b.find_user (key_of payload)) (
          find_user-Post b L (key_of payload) w
            (require_existing-Post c b now payload (find (matches (key_of payload)) w.users) w
              (λ u found. (refl, (verified, (u, found))))
              (λ e gone. record { holds = (refl, inr (inl (payload, verified, gone))) }))
            (λ e f. record {
              holds =
                  (refl, inr (fault_or_missing payload w f (λ gone. (payload, verified, gone))));
            })))
        (λ e refused. record { holds = (refl, inl refused) })))
