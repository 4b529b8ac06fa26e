-- ===== src/Auth/Users/Updates.antt =====
-- Changing an account.
use demo_t.Base.{
  ℕ, String, Bool, true, not, Option, none, some, List, [], ◌∷◌, ◌≡◌, refl, ap, ◌⊎◌, ◌&&◌, find,
  change, is_some, arith,
}
use demo_t.Errors.Exceptions.{Exception}
use demo_t.Auth.Rows.{User, World, admin, is_user}
use demo_t.Auth.Action.{Post, seq-Post, if-Post}
use demo_t.Auth.Backend.{Crypto, Backend, IsBackend, touched}
use demo_t.Auth.Backend.Rules.{update_user-Post}
use demo_t.Auth.Permission.{UserDto, is_admin}
use demo_t.Auth.Sessions.Authority.{HasAuthority, authority-Post}
use demo_t.Auth.Users.{UpdateUserParams, UserProfile, updated, may_write_verified, update_user}

-- What a bearer without the admin role leaves out.
abbrev pub MayWrite : UserDto → UpdateUserParams → Type 0
MayWrite current params = (params.email_verified ≡ none) ⊎ (current.role ≡ admin)

-- The row that was asked for: a field that is given replaces the row's, the email in lower case.
abbrev pub asked : (String → String) → UpdateUserParams → ℕ → User → User
asked lower params now u = record u {
  email = elim params.email [ none ↦ u.email | some email ↦ lower email ];
  name = elim params.name [ none ↦ u.name | some name ↦ some name ];
  email_verified = elim params.email_verified [ none ↦ u.email_verified | some mark ↦ mark ];
  updated_at = now;
}

updated-asked :
    (lower : String → String) (params : UpdateUserParams) (now : ℕ) (u : User)
    → touched (updated lower params) now u ≡ asked lower params now u
unfolding updated
updated-asked lower params now u = fields params.email params.name params.email_verified
  where
    fields :
        (email name : Option String) (mark : Option Bool)
        → touched
            (updated lower (record { email = email; name = name; email_verified = mark }))
            now
            u
          ≡ asked lower (record { email = email; name = name; email_verified = mark }) now u
    fields none none none = refl
    fields none none (some m) = refl
    fields none (some n) none = refl
    fields none (some n) (some m) = refl
    fields (some e) none none = refl
    fields (some e) none (some m) = refl
    fields (some e) (some n) none = refl
    fields (some e) (some n) (some m) = refl

change-asked :
    (lower : String → String) (params : UpdateUserParams) (now id : ℕ) (us : List User)
    → change (is_user id) (touched (updated lower params) now) us
      ≡ change (is_user id) (asked lower params now) us
change-asked lower params now id [] = refl
change-asked lower params now id (u ∷ us) =
    ground (arith, updated-asked lower params now u, change-asked lower params now id us)

-- What of a row is answered.
abbrev pub profile_of : User → UserProfile
profile_of u = record {
  id = u.id;
  email = u.email;
  name = u.name;
  role = u.role;
  settings = u.settings;
  email_verified = u.email_verified;
}

module _ {Q : Unit {0} → World → Type 0} {E : Exception → World → Type 0} where
  may_write_verified-Post :
      (current : UserDto) (params : UpdateUserParams) (w : World)
      → (MayWrite current params → Q tt w)
      → ((e : Exception) → E e w)
      → Post Q E (may_write_verified current params w)
  unfolding may_write_verified
  may_write_verified-Post current params w q k =
      if-Post (is_some params.email_verified && not (is_admin current.role)) _ _ w
        (λ _. record { holds = k _ }) (λ may. record { holds = q (ground arith) })

-- An update that returns was asked for by a bearer with authority over the active target, who is an
-- admin if the verified mark was to be written; it has set the email, in lower case, the name and the mark
-- of the target's row to what is asked, each where it is given, with the time of the update, and changed
-- nothing else; and it answers with that row. An update that throws changed nothing.
pub update_user-authorised :
    {Fault : Type 0} (c : Crypto) (b : Backend) (L : IsBackend Fault b) (now : ℕ) (token : String)
    (id : ℕ) (params : UpdateUserParams) (w : World)
    → Post
        (λ profile w'.
          (current : UserDto) × (target : User) × (u : User) × HasAuthority c now token id w current
            target
          × (target.is_active ≡ true)
          × MayWrite current params
          × (w' ≡ record w { users = change (is_user id) (asked c.lower params now) w.users })
          × (find (is_user id) w'.users ≡ some u)
          × (profile ≡ profile_of u))
        (λ _ w'. w' ≡ w)
        (update_user c b now token id params w)
unfolding update_user
update_user-authorised c b L now token id params w =
    authority-Post c b L now token id _ w
      (λ current target authority active. seq-Post (may_write_verified current params) (
        may_write_verified-Post current params w
          (λ may. seq-Post (b.update_user id (updated c.lower params) now) (
            update_user-Post b L id (updated c.lower params) now w
              (λ u found. record {
                holds = (
                  current,
                  target,
                  u,
                  authority,
                  active,
                  may,
                  ap (λ us. record w { users = us }) (change-asked c.lower params now id w.users),
                  found,
                  refl,
                );
              })
              (λ _ _. refl)))
          (λ _. refl)))
      (λ _. refl)
