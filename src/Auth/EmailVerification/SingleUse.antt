-- ===== src/Auth/EmailVerification/SingleUse.antt =====
-- What a verification of an email establishes, and that its token is good for one.
use mathlib.Core.Option
use demo_t.Base.{
  ℕ, String, true, false, not, Option, none, some, List, [], ◌∷◌, ◌≡◌, refl, sym, ap, ◌∙◌, ◌⊎◌, inl,
  inr, ◌===◌, find-change, find, change, drop_where, arith,
}
use demo_t.Errors.Exceptions.{Exception}
use demo_t.Auth.Rows.{User, Entry, World, by_id, matches, is_user}
use demo_t.Auth.Action.{Post, Post-mono, seq-Post, if-Post, pure, ◌>>=◌, ◌>>◌}
use demo_t.Auth.Backend.{Backend, IsBackend, live_entry, entry_value, touched}
use demo_t.Auth.Backend.Rules.{find_user-Post, update_user-Post, redis_get-Post, redis_del-Post}
use demo_t.Auth.Users.{require_found}
use demo_t.Auth.EmailVerification.{
  redis_key, require_entry, require_number, require_unverified, verified, parse_int,
  verify_stored_token, invalidate_token, verify_email, VerifyEmailResponse,
}

-- The state in which the user's row has the mark and the time of the verification, and the token is still stored.
abbrev pub marked : ℕ → ℕ → World → World
marked now id w = record w {
  users =
      change (is_user id)
        (λ u. record u { email_verified = true; email_verified_at = some now; updated_at = now })
        w.users;
}

-- The state in which also the token is gone.
abbrev pub consumed : String → World → World
consumed token w = record w { redis = drop_where (λ e. e.key === redis_key token) w.redis }

-- The token is stored and not expired, and names an active account whose email is not verified.
abbrev pub MayVerify : ℕ → String → World → ℕ → User → Type 0
MayVerify now token w id u =
    (entry : String) × (entry_value (find (live_entry (redis_key token) now) w.redis) ≡ some entry)
    × (parse_int entry ≡ some id)
    × (find (matches (by_id id)) w.users ≡ some u)
    × (u.is_active ≡ true)
    × (u.email_verified ≡ false)

module _ {E : Exception → World → Type 0} where
  require_entry-Post :
      {Q : String → World → Type 0} (found : Option String) (w : World)
      → ((entry : String) → found ≡ some entry → Q entry w)
      → ((e : Exception) → E e w)
      → Post Q E (require_entry found w)
  unfolding require_entry
  require_entry-Post none w q k = record { holds = k _ }
  require_entry-Post (some entry) w q k =
      if-Post (entry === "") _ _ w (λ _. record { holds = k _ })
        (λ _. record { holds = q entry refl })

  require_number-Post :
      {Q : ℕ → World → Type 0} (found : Option ℕ) (w : World)
      → ((n : ℕ) → found ≡ some n → Q n w)
      → ((e : Exception) → E e w)
      → Post Q E (require_number found w)
  unfolding require_number
  require_number-Post none w q k = record { holds = k _ }
  require_number-Post (some n) w q k = record { holds = q n refl }

  require_found-Post :
      {Q : User → World → Type 0} (found : Option User) (w : World)
      → ((u : User) → found ≡ some u → Q u w)
      → ((e : Exception) → E e w)
      → Post Q E (require_found found w)
  unfolding require_found
  require_found-Post none w q k = record { holds = k _ }
  require_found-Post (some u) w q k = record { holds = q u refl }

  require_unverified-Post :
      {Q : Unit {0} → World → Type 0} (u : User) (w : World)
      → (u.is_active ≡ true → u.email_verified ≡ false → Q tt w)
      → ((e : Exception) → E e w)
      → Post Q E (require_unverified u w)
  unfolding require_unverified
  require_unverified-Post u w q k =
      if-Post (not u.is_active) _ _ w (λ _. record { holds = k _ })
        (λ active.
          if-Post u.email_verified _ _ w (λ _. record { holds = k _ })
            (λ fresh. record { holds = q (ground arith) fresh }))

abbrev answer : User → VerifyEmailResponse
answer u = record {
  message = "Email verified successfully";
  email = u.email;
  verified_at = u.email_verified_at;
}

pub find-marked :
    (now id : ℕ) (w : World) (u : User)
    → find (is_user id) w.users ≡ some u
    → find (is_user id) (marked now id w).users ≡ some (touched (verified now) now u)
find-marked now id w u found =
    find-change (is_user id) (touched (verified now) now) w.users (λ _. refl)
    ∙ ap (Option.map (touched (verified now) now)) found

-- A consumed token is stored no more, at any time.
gone :
    (key : String) (now : ℕ) (es : List Entry)
    → find (live_entry key now) (drop_where (λ e. e.key === key) es) ≡ none
gone key now [] = refl
gone key now (e ∷ es) = ground (arith, gone key now es)

module _ {Fault : Type 0} (b : Backend) (L : IsBackend Fault b) (now : ℕ) where
  -- The writes of a verification, once its checks are passed.
  mark_and_consume :
      (token : String) (w : World) (id : ℕ) (u : User)
      → MayVerify now token w id u
      → Post
          (λ r w'.
            (id : ℕ) × (u : User) × MayVerify now token w id u
            × (r.email ≡ u.email)
            × (r.verified_at ≡ some now)
            × (w' ≡ consumed token (marked now id w)))
          (λ _ w'.
            (w' ≡ w)
            ⊎ (Fault
                × ((id : ℕ) × (u : User) × MayVerify now token w id u × (w' ≡ marked now id w))))
          ((b.update_user id (verified now) now >>= λ updated.
              b.redis_del (redis_key token) >> pure (answer updated))
            w)
  mark_and_consume token w id u may = seq-Post (b.update_user id (verified now) now) (
      update_user-Post b L id (verified now) now w
        (λ updated found. seq-Post (b.redis_del (redis_key token)) (
          redis_del-Post b L (redis_key token) (marked now id w)
            (record {
              holds =
                  let same = row updated found in
                  (id, u, may, ap (λ v. v.email) same, ap (λ v. v.email_verified_at) same, refl);
            })
            (λ _ f. inr (f, (id, u, may, refl)))))
        (λ _ _. inl refl))
    where
      row :
          (v : User)
          → find (is_user id) (marked now id w).users ≡ some v
          → v ≡ touched (verified now) now u
      row v found =
          Option.some-injective v (touched (verified now) now u)
            (sym found ∙ find-marked now id w u may.3)

  -- A verification that returns had a stored token of an active account with an unverified email; it
  -- has marked that account's row as verified at that time and consumed the token, changed nothing else, and
  -- answers with the account's email and that time. One that throws has
  -- changed nothing, or has marked the account where only the removal of the token failed.
  pub verify_email-establishes :
      (token : String) (w : World)
      → Post
          (λ r w'.
            (id : ℕ) × (u : User) × MayVerify now token w id u
            × (r.email ≡ u.email)
            × (r.verified_at ≡ some now)
            × (w' ≡ consumed token (marked now id w)))
          (λ _ w'.
            (w' ≡ w)
            ⊎ (Fault
                × ((id : ℕ) × (u : User) × MayVerify now token w id u × (w' ≡ marked now id w))))
          (verify_email b now token w)
  unfolding verify_email verify_stored_token invalidate_token
  verify_email-establishes token w = seq-Post (b.redis_get (redis_key token) now) (
      redis_get-Post b L (redis_key token) now w
        (seq-Post (require_entry _) (
          require_entry-Post (entry_value (find (live_entry (redis_key token) now) w.redis)) w
            (λ entry stored. seq-Post (require_number (parse_int entry)) (
              require_number-Post (parse_int entry) w
                (λ id parsed. seq-Post (b.find_user (by_id id)) (
                  find_user-Post b L (by_id id) w
                    (seq-Post (require_found (find (matches (by_id id)) w.users)) (
                      require_found-Post (find (matches (by_id id)) w.users) w
                        (λ u found. seq-Post (require_unverified u) (
                          require_unverified-Post u w
                            (λ active fresh.
                              mark_and_consume token w id u
                                (entry, stored, parsed, found, active, fresh))
                            (λ _. inl refl)))
                        (λ _. inl refl)))
                    (λ _ _. inl refl)))
                (λ _. inl refl)))
            (λ _. inl refl)))
        (λ _ _. inl refl))

  -- A token that is not stored is refused, and the refusal changes nothing.
  verify_email-unknown :
      (token : String) (w : World)
      → find (live_entry (redis_key token) now) w.redis ≡ none
      → Post (λ _ _. ⊥) (λ _ w'. w' ≡ w) (verify_email b now token w)
  unfolding verify_email verify_stored_token require_entry
  verify_email-unknown token w missing = seq-Post (b.redis_get (redis_key token) now) (
      redis_get-Post b L (redis_key token) now w (rw missing (record { holds = refl }))
        (λ _ _. refl))

module _ {Fault : Type 0} (b : Backend) (L : IsBackend Fault b) where
  -- After a verification that returned, the same token is refused at any later time, and the refusal
  -- changes nothing.
  pub verify_email-single_use :
      (now later : ℕ) (token : String) (w : World)
      → Post
          (λ _ w'. Post (λ _ _. ⊥) (λ _ w''. w'' ≡ w') (verify_email b later token w'))
          (λ _ _. Unit {0})
          (verify_email b now token w)
  verify_email-single_use now later token w =
      Post-mono (verify_email b now token w) (verify_email-establishes b L now token w)
        (λ _ w' (id, u, may, email, at, done).
          verify_email-unknown b L later token w' (rw done (gone (redis_key token) later w.redis)))
        (λ _ _ _. tt)
