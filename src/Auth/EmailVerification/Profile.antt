-- ===== src/Auth/EmailVerification/Profile.antt =====
-- The profile that an access token is answered with.
use demo_t.Base.{ℕ, String, Option, none, some, ◌≡◌, refl, ◌⊎◌, inl, inr, find}
use demo_t.Errors.Codes.{ErrorCode}
use demo_t.Errors.Exceptions.{Exception, ok}
use demo_t.Errors.Filters.{ErrorResponse, get_error_response}
use demo_t.Auth.Rows.{User, World, by_id_active, matches}
use demo_t.Auth.Action.{Post, Post-mono, seq-Post, ◌>>=◌}
use demo_t.Auth.Backend.{Crypto, Backend, IsBackend, access, refresh}
use demo_t.Auth.Backend.Rules.{find_user-Post}
use demo_t.Auth.Sessions.{Verification, valid, invalid, verify_token}
use demo_t.Auth.Sessions.Verifying.{IsAnswer, find-missing_id, verify_token-IsAnswer}
use demo_t.Auth.Users.{UserProfile, get_user_profile, require_found}
use demo_t.Auth.Users.Updates.{profile_of}
use demo_t.Auth.EmailVerification.{payload_id, get_me}

-- The answer 500 without a code.
abbrev pub uncoded : ℕ → ErrorResponse
uncoded now = record {
  status_code = 500;
  message = "Internal server error";
  error_code = none;
  timestamp = now;
}

abbrev pub user_not_found_answer : ℕ → ErrorResponse
user_not_found_answer now = record {
  status_code = 404;
  message = "User not found";
  error_code = some ErrorCode.user_not_found;
  timestamp = now;
}

-- The profile of the active account that the token names.
abbrev pub Answers : Crypto → ℕ → String → World → UserProfile → Type 0
Answers c now token w profile =
    (id : ℕ) × (email : String) × (role : String) × (u : User) × (c.verify c.jwt_secret now token
      ≡ ok (access id email role))
    × (find (matches (by_id_active id)) w.users ≡ some u)
    × (profile ≡ profile_of u)

-- A refusal: the token is not valid, or its account is not active, or a server failed.
abbrev pub Refuses : Type 0 → Crypto → ℕ → String → World → ErrorResponse → Type 0
Refuses Fault c now token w answer =
    ((e : Exception) × IsAnswer Fault c now token w (invalid e) × (answer ≡ uncoded now))
    ⊎ ((id : ℕ) × (email : String) × (role : String) × (c.verify c.jwt_secret now token
          ≡ ok (access id email role))
        × (find (matches (by_id_active id)) w.users ≡ none)
        × (answer ≡ user_not_found_answer now))
    ⊎ Fault

module _ {Fault : Type 0} (c : Crypto) (b : Backend) (L : IsBackend Fault b) (now : ℕ)
    (token : String) where
  require_found-Outcome :
      (id : ℕ) (email role : String) (w : World) (found : Option User)
      → c.verify c.jwt_secret now token ≡ ok (access id email role)
      → find (matches (by_id_active id)) w.users ≡ found
      → Post
          (λ u w'. (w' ≡ w) × Answers c now token w (profile_of u))
          (λ e w'. (w' ≡ w) × Refuses Fault c now token w (get_error_response now e))
          (require_found found w)
  unfolding require_found get_error_response
  require_found-Outcome id email role w none verified missing = record {
    holds = (refl, inr (inl (id, email, role, verified, missing, refl)));
  }
  require_found-Outcome id email role w (some u) verified there = record {
    holds = (refl, (id, email, role, u, verified, there, refl));
  }

  profile-Outcome :
      (v : Verification) (w : World)
      → IsAnswer Fault c now token w v
      → Post
          (λ profile w'. (w' ≡ w) × Answers c now token w profile)
          (λ e w'. (w' ≡ w) × Refuses Fault c now token w (get_error_response now e))
          ((payload_id v >>= get_user_profile c b now) w)
  unfolding payload_id get_user_profile get_error_response
  profile-Outcome (invalid e) w answer = record { holds = (refl, inl (e, answer, refl)) }
  profile-Outcome (valid (refresh user_id token_id type)) w (verified, (u, there)) =
      let missing = find-missing_id w.users in absurd cc
  profile-Outcome (valid (access id email role)) w (verified, (u, there)) =
      seq-Post (b.find_user (by_id_active id)) (
        find_user-Post b L (by_id_active id) w
          (seq-Post (require_found (find (matches (by_id_active id)) w.users)) (
            Post-mono (require_found (find (matches (by_id_active id)) w.users) w)
              (require_found-Outcome id email role w _ verified refl)
              (λ _ _ h. record { holds = h }) (λ _ _ h. h)))
          (λ _ f. (refl, inr (inr f))))

  -- A profile request changes nothing. It is answered with the profile of the active account that a token
  -- which verifies names; it is refused with 404 and `USER_NOT_FOUND` where that account is not active, and
  -- with 500, the text "Internal server error" and no code where the token does not verify, an expired one
  -- included, or names no row. Only a failing server has other answers.
  pub get_me-Outcome :
      (w : World)
      → Post
          (λ profile w'. (w' ≡ w) × Answers c now token w profile)
          (λ e w'. (w' ≡ w) × Refuses Fault c now token w (get_error_response now e))
          (get_me c b now token w)
  unfolding get_me
  get_me-Outcome w = seq-Post (verify_token c b now token) (
      Post-mono (verify_token c b now token w) (verify_token-IsAnswer c b L now token w)
        (λ v w' (same, answer). rw same (profile-Outcome v w answer)) (λ _ _ h. absurd h))
