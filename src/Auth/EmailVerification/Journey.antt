-- ===== src/Auth/EmailVerification/Journey.antt =====
-- From the registration to the verified email.
use demo_t.Auth.EmailVerification.Known.{
  require_entry-known, require_number-known, require_found-known, require_unverified-known,
}
use demo_t.Base.{
  ℕ, String, Bool, true, false, none, some, List, [], ◌∷◌, ◌≡◌, ◌≢◌, refl, ◌⊎◌, inl, inr, find, any,
  change, arith,
}
use demo_t.Auth.Rows.{User, World, by_id, by_email, matches, is_user}
use demo_t.Auth.Action.{Post, seq-Post}
use demo_t.Auth.Backend.{Crypto, Backend, IsBackend, touched, has_unique_emails}
use demo_t.Auth.Backend.Rules.{find_user-Post, update_user-Post, redis_get-Post, redis_del-Post}
use demo_t.Auth.Users.{CreateUserParams, require_found}
use demo_t.Auth.EmailVerification.{
  redis_key, require_entry, require_number, require_unverified, verified, parse_int,
  verify_stored_token, invalidate_token, verify_email,
}
use demo_t.Auth.EmailVerification.SingleUse.{MayVerify, marked, consumed, find-marked}

-- A change that keeps the emails.
any-change_email :
    (email : String) (p : User → Bool) (f : User → User) (us : List User)
    → ((u : User) → (f u).email ≡ u.email)
    → any (matches (by_email email)) (change p f us) ≡ any (matches (by_email email)) us
any-change_email email p f [] same = refl
any-change_email email p f (u ∷ us) same =
    ground (arith, same u, any-change_email email p f us same)

has_unique_emails-change :
    (p : User → Bool) (f : User → User) (us : List User)
    → ((u : User) → (f u).email ≡ u.email)
    → has_unique_emails (change p f us) ≡ has_unique_emails us
has_unique_emails-change p f [] same = refl
has_unique_emails-change p f (u ∷ us) same =
    ground
      (arith, same u, any-change_email u.email p f us same, has_unique_emails-change p f us same)

module _ {Fault : Type 0} (b : Backend) (L : IsBackend Fault b) (now : ℕ) where
  mark-succeeds :
      {Q : User → World → Type 0} (id : ℕ) (w : World) (u : User)
      → find (is_user id) w.users ≡ some u
      → has_unique_emails w.users ≡ true
      → ((v : User) → Q v (marked now id w))
      → Post Q (λ _ _. Fault) (b.update_user id (verified now) now w)
  mark-succeeds id w u found unique q =
      update_user-Post b L id (verified now) now w (λ v _. q v) (λ e why. reason why)
    where
      reason :
          (Fault
            ⊎ (find (is_user id) (marked now id w).users ≡ none)
            ⊎ (has_unique_emails (marked now id w).users ≡ false))
          → Fault
      reason (inl f) = f
      reason (inr (inl gone)) = let there = find-marked now id w u found in cc
      reason (inr (inr twice)) =
          let same =
            has_unique_emails-change (is_user id) (touched (verified now) now) w.users
              (λ _. refl) in
          cc

  -- A stored token of an active account with an unverified email, where the emails are unique, verifies
  -- that account and is consumed, unless a server fails.
  pub verify_email-succeeds :
      (token : String) (w : World) (id : ℕ) (u : User) (may : MayVerify now token w id u)
      → may.0 ≢ ""
      → has_unique_emails w.users ≡ true
      → Post
          (λ _ w'. w' ≡ consumed token (marked now id w))
          (λ _ _. Fault)
          (verify_email b now token w)
  unfolding verify_email verify_stored_token invalidate_token
  verify_email-succeeds token w id u (entry, stored, parsed, found, active, fresh) text unique =
      seq-Post (b.redis_get (redis_key token) now) (
        redis_get-Post b L (redis_key token) now w
          (seq-Post (require_entry _) (
            require_entry-known _ entry w stored text (
              seq-Post (require_number (parse_int entry)) (
                require_number-known (parse_int entry) id w parsed (
                  seq-Post (b.find_user (by_id id)) (
                    find_user-Post b L (by_id id) w
                      (seq-Post (require_found (find (matches (by_id id)) w.users)) (
                        require_found-known _ u w found (
                          seq-Post (require_unverified u) (
                            require_unverified-known u w active fresh (
                              seq-Post (b.update_user id (verified now) now) (
                                mark-succeeds id w u found unique (λ _.
                                  seq-Post (b.redis_del (redis_key token)) (
                                    redis_del-Post b L (redis_key token) (marked now id w)
                                      (record { holds = refl }) (λ _ f. f)))))))))
                      (λ _ f. f)))))))
          (λ _ f. f))

-- What the account looks like once the link in the email was followed.
abbrev pub IsVerified : Crypto → CreateUserParams → User → World → Type 0
IsVerified c params u w =
    (v : User) × (find (is_user u.id) w.users ≡ some v)
    × (v.email_verified ≡ true)
    × (v.email ≡ c.lower params.email)
