-- ===== src/Auth/Ownership.antt =====
-- Every stored refresh token belongs to an active account: what the calls of the database do to that.
pub mod Rules
pub mod Checks
pub mod SignIn
pub mod Sessions
pub mod Accounts
pub mod Reachable
use demo_t.Base.{
  ℕ, String, Bool, true, false, not, Option, none, some, List, [], ◌∷◌, ◌≡◌, refl, sym, ap, ◌∙◌,
  ◌==◌, ◌===◌, ◌&&◌, ◌||◌, arith, any, all, keep, change, drop_where, find, all_mono, all-keep,
  ==_iff, any_of_find,
}
use demo_t.Auth.Rows.{
  User, RefreshToken, World, is_user, is_token_of, matches, by_id_active, by_email,
}
use demo_t.Auth.Backend.{UserData, orphaned_by, touched, new_user}

-- The account of a token is there and active.
abbrev pub is_owned : List User → RefreshToken → Bool
is_owned users t = any (matches (by_id_active t.user_id)) users

abbrev pub IsOwned : World → Type 0
IsOwned w = all (is_owned w.users) w.tokens ≡ true

-- An account that is there and active.
abbrev pub HasAccount : ℕ → World → Type 0
HasAccount id w = any (matches (by_id_active id)) w.users ≡ true

any-change_user :
    (id k : ℕ) (g : User → User) (us : List User)
    → ((u : User) → (g u).id ≡ u.id)
    → ((u : User) → (g u).is_active ≡ u.is_active)
    → any (matches (by_id_active id)) (change (is_user k) g us) ≡ any (matches (by_id_active id)) us
any-change_user id k g [] i a = refl
any-change_user id k g (u ∷ us) i a = ground (arith, i u, a u, any-change_user id k g us i a)

any-change_other :
    (id k : ℕ) (g : User → User) (us : List User)
    → ((u : User) → (g u).id ≡ u.id)
    → (id == k) ≡ false
    → any (matches (by_id_active id)) (change (is_user k) g us) ≡ any (matches (by_id_active id)) us
any-change_other id k g [] i a = refl
any-change_other id k g (u ∷ us) i a = ground (arith, i u, any-change_other id k g us i a)

any-drop_where_other :
    (id : ℕ) (p : User → Bool) (us : List User)
    → any (matches (by_id_active id)) us ≡ true
    → any (λ u. p u && u.id == id) us ≡ false
    → any (matches (by_id_active id)) (drop_where p us) ≡ true
any-drop_where_other id p [] h k = h
any-drop_where_other id p (u ∷ us) h k = ground (arith, any-drop_where_other id p us)

all-change_token :
    (us : List User) (p : RefreshToken → Bool) (f : RefreshToken → RefreshToken)
    (ts : List RefreshToken)
    → ((t : RefreshToken) → (f t).user_id ≡ t.user_id)
    → all (is_owned us) (change p f ts) ≡ all (is_owned us) ts
all-change_token us p f [] same = refl
all-change_token us p f (t ∷ ts) same =
    ground (
      arith,
      ap (λ id. any (matches (by_id_active id)) us) (same t),
      all-change_token us p f ts same,
    )

-- A test that is passed under one list of accounts is passed under another.
all_owned_mono :
    (us vs : List User) (q : RefreshToken → Bool) (ts : List RefreshToken)
    → ((t : RefreshToken) → is_owned us t ≡ true → q t ≡ true → is_owned vs t ≡ true)
    → all (is_owned us) ts ≡ true
    → all (is_owned vs) (keep q ts) ≡ true
all_owned_mono us vs q [] f h = refl
all_owned_mono us vs q (t ∷ ts) f h = ground (arith, f t, all_owned_mono us vs q ts f)

module _ (w : World) (o : IsOwned w) where
  pub remove_tokens :
      (p : RefreshToken → Bool) → IsOwned (record w { tokens = drop_where p w.tokens })
  remove_tokens p = all-keep (is_owned w.users) (λ t. not (p t)) w.tokens o

  pub change_tokens :
      (p : RefreshToken → Bool) (f : RefreshToken → RefreshToken)
      → ((t : RefreshToken) → (f t).user_id ≡ t.user_id)
      → IsOwned (record w { tokens = change p f w.tokens })
  change_tokens p f same = all-change_token w.users p f w.tokens same ∙ o

  pub add_token :
      (t : RefreshToken) → HasAccount t.user_id w → IsOwned (record w { tokens = t ∷ w.tokens })
  add_token t account = ground (arith, account, o)

  pub change_user :
      (k : ℕ) (g : User → User)
      → ((u : User) → (g u).id ≡ u.id)
      → ((u : User) → (g u).is_active ≡ u.is_active)
      → IsOwned (record w { users = change (is_user k) g w.users })
  change_user k g i a =
      all_mono (is_owned w.users) (is_owned (change (is_user k) g w.users)) w.tokens
        (λ t h. any-change_user t.user_id k g w.users i a ∙ h) o

  -- An account without tokens may also be deactivated.
  pub deactivate_user :
      (k : ℕ) (g : User → User)
      → ((u : User) → (g u).id ≡ u.id)
      → IsOwned (record w {
        users = change (is_user k) g w.users;
        tokens = drop_where (is_token_of k) w.tokens;
      })
  deactivate_user k g i =
      all_owned_mono w.users (change (is_user k) g w.users) (λ t. not (is_token_of k t)) w.tokens
        (λ t h other. any-change_other t.user_id k g w.users i (ground (arith, other)) ∙ h) o

  pub remove_users :
      (p : User → Bool)
      → IsOwned (record w {
        users = drop_where p w.users;
        tokens = drop_where (orphaned_by p w.users) w.tokens;
      })
  remove_users p =
      all_owned_mono w.users (drop_where p w.users) (λ t. not (orphaned_by p w.users t)) w.tokens
        (λ t h kept. any-drop_where_other t.user_id p w.users h (ground (arith, kept))) o

  pub add_user : (u : User) → IsOwned (record w { users = u ∷ w.users })
  add_user u =
      all_mono (is_owned w.users) (is_owned (u ∷ w.users)) w.tokens (λ t h. ground (arith, h)) o
