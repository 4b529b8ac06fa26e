-- ===== src/Auth/Users/Creation.antt =====
-- Creating an account.
use demo_t.Base.{
  ℕ, String, true, false, ◌+◌, ◌*◌, ◌<◌, Option, none, some, ◌∷◌, ◌≡◌, ◌≢◌, refl, ◌⊎◌, inl, inr,
  ◌-◌, ltb, find, arith,
}
use demo_t.Errors.Exceptions.{Exception, ok}
use demo_t.Auth.Rows.{User, World, client, by_email, is_user, matches}
use demo_t.Auth.Action.{Post, seq-Post, if-Post, lift, lift-Post}
use demo_t.Auth.Backend.{Crypto, Backend, IsBackend, UserData, new_user}
use demo_t.Auth.Backend.Rules.{find_user-Post, create_user-Post, delete_user-Post}
use demo_t.Auth.TokenConfig.{email_verification_milliseconds}
use demo_t.Auth.Users.{
  CreateUserParams, replace_unverified, check_if_user_unverified_and_delete, create_user,
}
use demo_t.Auth.Users.Deletion.{hard_deleted}

-- The state in which the email is free: nobody held it, or its holder never verified it in time and
-- is gone with all tokens.
abbrev pub Frees : ℕ → String → World → World → Type 0
Frees now email w w₁ =
    ((find (matches (by_email email)) w.users ≡ none) × (w₁ ≡ w))
    ⊎ ((u : User) × (find (matches (by_email email)) w.users ≡ some u)
        × (u.email_verified ≡ false)
        × (u.created_at + 30 * 60 * 1000 < now)
        × (w₁ ≡ hard_deleted u.id w))

-- The columns of the new row.
abbrev pub user_data : Crypto → CreateUserParams → String → UserData
user_data c params hashed = record {
  email = c.lower params.email;
  password = hashed;
  name = params.name;
  original_email = some (c.lower params.email);
}

-- The row of a registration.
abbrev pub registered : Crypto → ℕ → CreateUserParams → ℕ → String → User
registered c now params id hashed = record {
  id = id;
  name = params.name;
  password = hashed;
  email = c.lower params.email;
  role = client;
  settings = "{}";
  is_active = true;
  deleted_at = none;
  original_email = some (c.lower params.email);
  email_verified = false;
  email_verified_at = none;
  created_at = now;
  updated_at = now;
}

expired :
    {now : ℕ} (created_at : ℕ)
    → ltb created_at (now - email_verification_milliseconds) ≡ true
    → created_at + 30 * 60 * 1000 < now
expired created_at old = ground arith

module _ {Q : Unit {0} → World → Type 0} {E : Exception → World → Type 0} {Fault : Type 0}
    (c : Crypto) (b : Backend) (L : IsBackend Fault b) (now : ℕ) where
  replace_unverified-Post :
      (email : String) (found : Option User) (w : World)
      → find (matches (by_email email)) w.users ≡ found
      → ((w₁ : World) → Frees now email w w₁ → Q tt w₁)
      → ((e : Exception) → E e w)
      → Post Q E (replace_unverified c b now found w)
  unfolding replace_unverified
  replace_unverified-Post email none w e q k = record { holds = q w (inl (e, refl)) }
  replace_unverified-Post email (some u) w e q k =
      if-Post u.email_verified _ _ w (λ _. record { holds = k _ })
        (λ unverified.
          if-Post (ltb u.created_at (now - email_verification_milliseconds)) _ _ w
            (λ old.
              delete_user-Post b L u.id w
                (q (hard_deleted u.id w) (inr (u, e, unverified, expired u.created_at old, refl)))
                (λ _ _. k _))
            (λ _. record { holds = k _ }))

module _ {Fault : Type 0} (c : Crypto) (b : Backend) (L : IsBackend Fault b) (now : ℕ) where
  -- A registration that returns has stored one new row: an active client's, not verified, with the name, the
  -- lower-cased email, the hash of the password and an id that no other row has, in a state in which the email was
  -- free: nobody held it, or its holder had not verified it for 30 minutes and is gone with all tokens. One that
  -- throws has stored no row: the state is as before, but for such a holder of the email, who may
  -- be gone.
  pub create_user-Frees :
      (params : CreateUserParams) (w : World)
      → Post
          (λ u w'.
            (w₁ : World) × (hashed : String) × Frees now (c.lower params.email) w w₁
            × (c.hash params.password 10 ≡ ok hashed)
            × (find (is_user u.id) w₁.users ≡ none)
            × (u ≡ registered c now params u.id hashed)
            × (w' ≡ record w₁ { users = u ∷ w₁.users }))
          (λ _ w'. (w' ≡ w) ⊎ Frees now (c.lower params.email) w w')
          (create_user c b now params w)
  unfolding create_user check_if_user_unverified_and_delete
  create_user-Frees params w = seq-Post (lift (c.hash params.password 10)) (
      lift-Post (c.hash params.password 10) w
        (λ hashed same.
          seq-Post (check_if_user_unverified_and_delete c b now (c.lower params.email)) (
            seq-Post (b.find_user (by_email (c.lower params.email))) (
              find_user-Post b L (by_email (c.lower params.email)) w
                (replace_unverified-Post c b L now (c.lower params.email) _ w refl
                  (λ w₁ free.
                    create_user-Post b L (user_data c params hashed) now w₁
                      (λ id own _. (w₁, hashed, free, same, own, refl, refl)) (λ _ _. inr free))
                  (λ _. inl refl))
                (λ _ _. inl refl))))
        (λ _ _. inl refl))

  -- A registration with a free email goes through unless a server fails, and then nothing is changed.
  pub create_user-available :
      (params : CreateUserParams) (w : World) (hashed : String)
      → c.hash params.password 10 ≡ ok hashed
      → find (matches (by_email (c.lower params.email))) w.users ≡ none
      → Post
          (λ u w'.
            (u ≡ new_user u.id now (user_data c params hashed))
            × (w' ≡ record w { users = u ∷ w.users }))
          (λ _ w'. Fault × (w' ≡ w))
          (create_user c b now params w)
  unfolding create_user check_if_user_unverified_and_delete replace_unverified
  create_user-available params w hashed same free = rw same (
      seq-Post (check_if_user_unverified_and_delete c b now (c.lower params.email)) (
        seq-Post (b.find_user (by_email (c.lower params.email))) (
          find_user-Post b L (by_email (c.lower params.email)) w
            (rw free (record {
              holds =
                  create_user-Post b L (user_data c params hashed) now w (λ id _ _. (refl, refl))
                    (λ e why. (refused why, refl));
            }))
            (λ _ f. (f, refl)))))
    where
      refused : (Fault ⊎ (find (matches (by_email (c.lower params.email))) w.users ≢ none)) → Fault
      refused (inl f) = f
      refused (inr taken) = elim (taken free) [ ]
