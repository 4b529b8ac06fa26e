-- ===== src/Auth/Backend/Rules.antt =====
-- The backend's behaviour as proof rules: what a method has to show before a call, and what it may
-- use after it.
use demo_t.Base.{
  ℕ, String, Bool, true, false, Option, none, some, List, ◌∷◌, ◌≡◌, ◌≢◌, subst, ◌⊎◌, inl, inr,
  ◌===◌, ◌+◌, ◌*◌, length, keep, find, any, change, drop_where,
}
use demo_t.Errors.Exceptions.{Exception, Result, ok, err}
use demo_t.Auth.Rows.{
  User, RefreshToken, World, UserKey, by_email, matches, is_user, is_token,
  UserRegistrationInitiatedEvent,
}
use demo_t.Auth.Action.{Action, Post}
use demo_t.Auth.Backend.{
  Backend, FindFault, IsBackend, UserData, Serves, Refuses, has_unique_ids, has_unique_emails,
  IsSortedByUse, SameRows, new_user, touched, orphaned_by, entry_value, live_entry,
}

module _ {A : Type 0} {Q : A → World → Type 0} {E : Exception → World → Type 0} where
  Serves-Post :
      {reason : Type 0} {v : A} {w' w : World} (x : Result A × World)
      → Serves reason v w' w x
      → Q v w'
      → ((e : Exception) → reason → E e w)
      → Post Q E x
  Serves-Post (ok a, u) h q k = record { holds = rw (h.holds.0, h.holds.1) q }
  Serves-Post (err e, u) h q k = record { holds = rw h.holds.0 (k e h.holds.1) }

  -- A call that threw left the state alone.
  weaken-Post :
      {R : A → World → Type 0} {reason : Type 0} {w : World} (x : Result A × World)
      → Post R (Refuses reason w) x
      → ((a : A) (u : World) → R a u → Q a u)
      → ((e : Exception) → reason → E e w)
      → Post Q E x
  weaken-Post (ok a, u) h q k = record { holds = q a u h.holds }
  weaken-Post (err e, u) h q k = record { holds = rw h.holds.0 (k e h.holds.1) }

module _ {Fault : Type 0} (b : Backend) (L : IsBackend Fault b)
    {E : Exception → World → Type 0} where
  pub find_user-Post :
      {Q : Option User → World → Type 0} (k : UserKey) (w : World)
      → Q (find (matches k) w.users) w
      → ((e : Exception) → FindFault Fault k → E e w)
      → Post Q E (b.find_user k w)
  find_user-Post k w q e = Serves-Post (b.find_user k w) (L.finds_user k w) q e

  pub create_user-Post :
      {Q : User → World → Type 0} (fields : UserData) (now : ℕ) (w : World)
      → ((id : ℕ)
          → find (is_user id) w.users ≡ none
          → find (matches (by_email fields.email)) w.users ≡ none
          → Q (new_user id now fields) (record w { users = new_user id now fields ∷ w.users }))
      → ((e : Exception)
          → (Fault ⊎ (find (matches (by_email fields.email)) w.users ≢ none))
          → E e w)
      → Post Q E (b.create_user fields now w)
  create_user-Post {Q} fields now w q e =
      weaken-Post (b.create_user fields now w) (L.creates_user fields now w)
        (λ u w' (same, no_id, no_email, next). rw next (rw same (q u.id no_id no_email))) e

  pub update_user-Post :
      {Q : User → World → Type 0} (id : ℕ) (f : User → User) (now : ℕ) (w : World)
      → ((u : User)
          → find (is_user id) (change (is_user id) (touched f now) w.users) ≡ some u
          → Q u (record w { users = change (is_user id) (touched f now) w.users }))
      → ((e : Exception)
          → (Fault
              ⊎ (find (is_user id) (change (is_user id) (touched f now) w.users) ≡ none)
              ⊎ (has_unique_emails (change (is_user id) (touched f now) w.users) ≡ false))
          → E e w)
      → Post Q E (b.update_user id f now w)
  update_user-Post {Q} id f now w q e =
      weaken-Post (b.update_user id f now w) (L.updates_user id f now w)
        (λ u w' (found, next). rw next (q u (rw next at found))) e

  pub delete_user-Post :
      {Q : Unit {0} → World → Type 0} (id : ℕ) (w : World)
      → Q tt (record w {
        users = drop_where (is_user id) w.users;
        tokens = drop_where (orphaned_by (is_user id) w.users) w.tokens;
      })
      → ((e : Exception) → (Fault ⊎ (find (is_user id) w.users ≡ none)) → E e w)
      → Post Q E (b.delete_user id w)
  delete_user-Post id w q e = Serves-Post (b.delete_user id w) (L.deletes_user id w) q e

  pub delete_users-Post :
      {Q : ℕ → World → Type 0} (p : User → Bool) (w : World)
      → Q (length (keep p w.users)) (record w {
        users = drop_where p w.users;
        tokens = drop_where (orphaned_by p w.users) w.tokens;
      })
      → ((e : Exception) → Fault → E e w)
      → Post Q E (b.delete_users p w)
  delete_users-Post p w q e = Serves-Post (b.delete_users p w) (L.deletes_users p w) q e

  pub find_token-Post :
      {Q : Option RefreshToken → World → Type 0} (id : String) (w : World)
      → Q (find (is_token id) w.tokens) w
      → ((e : Exception) → Fault → E e w)
      → Post Q E (b.find_token id w)
  find_token-Post id w q e = Serves-Post (b.find_token id w) (L.finds_token id w) q e

  pub find_tokens-Post :
      {Q : List RefreshToken → World → Type 0} (p : RefreshToken → Bool) (w : World)
      → ((ts : List RefreshToken) → SameRows ts (keep p w.tokens) → Q ts w)
      → ((e : Exception) → Fault → E e w)
      → Post Q E (b.find_tokens p w)
  find_tokens-Post p w q e =
      weaken-Post (b.find_tokens p w) (L.finds_tokens p w) (λ ts w' h. rw h.1 (q ts h.0)) e

  pub find_tokens_by_use-Post :
      {Q : List RefreshToken → World → Type 0} (p : RefreshToken → Bool) (w : World)
      → ((ts : List RefreshToken) → SameRows ts (keep p w.tokens) → IsSortedByUse ts → Q ts w)
      → ((e : Exception) → Fault → E e w)
      → Post Q E (b.find_tokens_by_use p w)
  find_tokens_by_use-Post p w q e =
      weaken-Post (b.find_tokens_by_use p w) (L.finds_tokens_by_use p w)
        (λ ts w' h. rw h.2 (q ts h.0 h.1)) e

  pub create_token-Post :
      {Q : Unit {0} → World → Type 0} (t : RefreshToken) (w : World)
      → (any (is_token t.id) w.tokens ≡ false
          → any (is_user t.user_id) w.users ≡ true
          → Q tt (record w { tokens = t ∷ w.tokens }))
      → ((e : Exception)
          → (Fault
              ⊎ (any (is_token t.id) w.tokens ≡ true)
              ⊎ (any (is_user t.user_id) w.users ≡ false))
          → E e w)
      → Post Q E (b.create_token t w)
  create_token-Post t w q e =
      weaken-Post (b.create_token t w) (L.creates_token t w) (λ u w' h. rw h.2 (q h.0 h.1)) e

  pub update_token-Post :
      {Q : Unit {0} → World → Type 0} (id : String) (f : RefreshToken → RefreshToken) (w : World)
      → Q tt (record w { tokens = change (is_token id) f w.tokens })
      → ((e : Exception)
          → (Fault
              ⊎ (any (is_token id) w.tokens ≡ false)
              ⊎ (has_unique_ids (change (is_token id) f w.tokens) ≡ false))
          → E e w)
      → Post Q E (b.update_token id f w)
  update_token-Post id f w q e = Serves-Post (b.update_token id f w) (L.updates_token id f w) q e

  pub delete_token-Post :
      {Q : Unit {0} → World → Type 0} (id : String) (w : World)
      → Q tt (record w { tokens = drop_where (is_token id) w.tokens })
      → ((e : Exception) → (Fault ⊎ (any (is_token id) w.tokens ≡ false)) → E e w)
      → Post Q E (b.delete_token id w)
  delete_token-Post id w q e = Serves-Post (b.delete_token id w) (L.deletes_token id w) q e

  pub delete_tokens-Post :
      {Q : ℕ → World → Type 0} (p : RefreshToken → Bool) (w : World)
      → Q (length (keep p w.tokens)) (record w { tokens = drop_where p w.tokens })
      → ((e : Exception) → Fault → E e w)
      → Post Q E (b.delete_tokens p w)
  delete_tokens-Post p w q e = Serves-Post (b.delete_tokens p w) (L.deletes_tokens p w) q e

  -- A transaction needs to be followed only to where its body returned.
  pub transaction-Post :
      {Q : User → World → Type 0} (F : Exception → World → Type 0) (m : Action User) (w : World)
      → Post Q F (m w)
      → ((e : Exception) → Fault ⊎ ((e' : Exception) × (w' : World) × F e' w') → E e w)
      → Post Q E (b.transaction m w)
  transaction-Post {Q} F m w h k = elim (L.transacts m w) [
    | inl (u, w', ran, done) ↦ rw done (record { holds = (subst (Post Q F) ran h).holds })
    | inr (e, undone, inl fault) ↦ rw undone (record { holds = k e (inl fault) })
    | inr (e, undone, inr (e', w', failed)) ↦
        rw undone (record { holds = k e (inr (e', w', (subst (Post Q F) failed h).holds)) })
  ]

  pub redis_get-Post :
      {Q : Option String → World → Type 0} (key : String) (now : ℕ) (w : World)
      → Q (entry_value (find (live_entry key now) w.redis)) w
      → ((e : Exception) → Fault → E e w)
      → Post Q E (b.redis_get key now w)
  redis_get-Post key now w q e = Serves-Post (b.redis_get key now w) (L.gets key now w) q e

  pub redis_setex-Post :
      {Q : Unit {0} → World → Type 0} (key : String) (seconds : ℕ) (value : String) (now : ℕ)
      (w : World)
      → Q tt (record w {
        redis =
            record { key = key; value = value; expires_at = now + seconds * 1000 }
            ∷ drop_where (λ e. e.key === key) w.redis;
      })
      → ((e : Exception) → Fault → E e w)
      → Post Q E (b.redis_setex key seconds value now w)
  redis_setex-Post key seconds value now w q e =
      Serves-Post (b.redis_setex key seconds value now w) (L.setexes key seconds value now w) q e

  pub redis_del-Post :
      {Q : Unit {0} → World → Type 0} (key : String) (w : World)
      → Q tt (record w { redis = drop_where (λ e. e.key === key) w.redis })
      → ((e : Exception) → Fault → E e w)
      → Post Q E (b.redis_del key w)
  redis_del-Post key w q e = Serves-Post (b.redis_del key w) (L.dels key w) q e

  pub emit-Post :
      {Q : Unit {0} → World → Type 0} (event : UserRegistrationInitiatedEvent) (w : World)
      → Q tt (record w { events = event ∷ w.events })
      → ((e : Exception) → Fault → E e w)
      → Post Q E (b.emit event w)
  emit-Post event w q e = Serves-Post (b.emit event w) (L.emits event w) q e
