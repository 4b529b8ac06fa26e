-- ===== src/Auth/Ownership/Rules.antt =====
-- Methods that keep a property of the state, whether they return or throw.
use demo_t.Base.{ℕ, String, Bool, ◌≡◌, if◌then◌else◌}
use demo_t.Errors.Exceptions.{Exception, Result}
use demo_t.Auth.Rows.{
  User, RefreshToken, World, UserKey, is_user, is_token, UserRegistrationInitiatedEvent,
}
use demo_t.Auth.Action.{
  Action, ◌>>=◌, pure, throw, try_catch, lift, Post, Post-mono, seq-Post, try_catch-Post, if-Post,
  lift-Post,
}
use demo_t.Auth.Backend.{Backend, IsBackend, UserData, new_user}
use demo_t.Auth.Backend.Rules.{
  find_user-Post, find_token-Post, find_tokens-Post, find_tokens_by_use-Post, delete_tokens-Post,
  delete_token-Post, update_token-Post, update_user-Post, delete_user-Post, delete_users-Post,
  create_user-Post, create_token-Post, redis_get-Post, redis_setex-Post, redis_del-Post, emit-Post,
}
use demo_t.Auth.Ownership.{
  IsOwned, HasAccount, remove_tokens, change_tokens, add_token, change_user, remove_users, add_user,
}

abbrev pub Keeps : {A : Type 0} → (World → Type 0) → Action A → Type 0
Keeps I m = (w : World) → I w → Post (λ _ w'. I w') (λ _ w'. I w') (m w)

module _ {I : World → Type 0} {A : Type 0} where
  pub pure-Keeps : (a : A) → Keeps I (pure a)
  pure-Keeps a w o = record { holds = o }

  pub throw-Keeps : (e : Exception) → Keeps I (throw {A = A} e)
  throw-Keeps e w o = record { holds = o }

  pub lift-Keeps : (r : Result A) → Keeps I (lift r)
  lift-Keeps r w o = lift-Post r w (λ _ _. o) (λ _ _. o)

  pub if-Keeps : (t : Bool) (m n : Action A) → Keeps I m → Keeps I n → Keeps I (if t then m else n)
  if-Keeps t m n f g w o = if-Post t m n w (λ _. f w o) (λ _. g w o)

  pub catch-Keeps :
      (m : Action A) (handler : Exception → Action A)
      → Keeps I m
      → ((e : Exception) → Keeps I (handler e))
      → Keeps I (try_catch m handler)
  catch-Keeps m handler f g w o =
      try_catch-Post m (Post-mono (m w) (f w o) (λ _ _ p. p) (λ e w' p. g e w' p))

module _ {I : World → Type 0} {A B : Type 0} where
  pub seq-Keeps :
      (m : Action A) (f : A → Action B) → Keeps I m → ((a : A) → Keeps I (f a)) → Keeps I (m >>= f)
  seq-Keeps m f g h w o = seq-Post m (Post-mono (m w) (g w o) (λ a w' p. h a w' p) (λ e w' p. p))

-- The state of an account that is there and active, with every token owned.
abbrev pub IsOwnedWith : ℕ → World → Type 0
IsOwnedWith id w = IsOwned w × HasAccount id w

module _ {Fault : Type 0} (b : Backend) (L : IsBackend Fault b) where
  module _ {I : World → Type 0} where
    pub find_user-Keeps : (k : UserKey) → Keeps I (b.find_user k)
    find_user-Keeps k w o = find_user-Post b L k w o (λ _ _. o)

    pub find_token-Keeps : (id : String) → Keeps I (b.find_token id)
    find_token-Keeps id w o = find_token-Post b L id w o (λ _ _. o)

    pub find_tokens-Keeps : (p : RefreshToken → Bool) → Keeps I (b.find_tokens p)
    find_tokens-Keeps p w o = find_tokens-Post b L p w (λ _ _. o) (λ _ _. o)

    pub find_tokens_by_use-Keeps : (p : RefreshToken → Bool) → Keeps I (b.find_tokens_by_use p)
    find_tokens_by_use-Keeps p w o = find_tokens_by_use-Post b L p w (λ _ _ _. o) (λ _ _. o)

    pub redis_get-Keeps : (key : String) (now : ℕ) → Keeps I (b.redis_get key now)
    redis_get-Keeps key now w o = redis_get-Post b L key now w o (λ _ _. o)

  pub redis_setex-Keeps :
      (key : String) (s : ℕ) (v : String) (now : ℕ) → Keeps IsOwned (b.redis_setex key s v now)
  redis_setex-Keeps key s v now w o = redis_setex-Post b L key s v now w o (λ _ _. o)

  pub redis_del-Keeps : (key : String) → Keeps IsOwned (b.redis_del key)
  redis_del-Keeps key w o = redis_del-Post b L key w o (λ _ _. o)

  pub emit-Keeps : (event : UserRegistrationInitiatedEvent) → Keeps IsOwned (b.emit event)
  emit-Keeps event w o = emit-Post b L event w o (λ _ _. o)

  pub delete_tokens-Keeps : (p : RefreshToken → Bool) → Keeps IsOwned (b.delete_tokens p)
  delete_tokens-Keeps p w o = delete_tokens-Post b L p w (remove_tokens w o p) (λ _ _. o)

  pub delete_token-Keeps : (id : String) → Keeps IsOwned (b.delete_token id)
  delete_token-Keeps id w o =
      delete_token-Post b L id w (remove_tokens w o (is_token id)) (λ _ _. o)

  pub update_token-Keeps :
      (id : String) (f : RefreshToken → RefreshToken)
      → ((t : RefreshToken) → (f t).user_id ≡ t.user_id)
      → Keeps IsOwned (b.update_token id f)
  update_token-Keeps id f same w o =
      update_token-Post b L id f w (change_tokens w o (is_token id) f same) (λ _ _. o)

  pub update_user-Keeps :
      (id : ℕ) (f : User → User) (now : ℕ)
      → ((u : User) → (f u).id ≡ u.id)
      → ((u : User) → (f u).is_active ≡ u.is_active)
      → Keeps IsOwned (b.update_user id f now)
  update_user-Keeps id f now i a w o =
      update_user-Post b L id f now w (λ u _. change_user w o id _ i a) (λ _ _. o)

  pub delete_user-Keeps : (id : ℕ) → Keeps IsOwned (b.delete_user id)
  delete_user-Keeps id w o = delete_user-Post b L id w (remove_users w o (is_user id)) (λ _ _. o)

  pub delete_users-Keeps : (p : User → Bool) → Keeps IsOwned (b.delete_users p)
  delete_users-Keeps p w o = delete_users-Post b L p w (remove_users w o p) (λ _ _. o)

  pub create_user-Keeps : (fields : UserData) (now : ℕ) → Keeps IsOwned (b.create_user fields now)
  create_user-Keeps fields now w o =
      create_user-Post b L fields now w (λ id _ _. add_user w o (new_user id now fields)) (λ _ _. o)

  pub delete_tokens-With :
      (id : ℕ) (p : RefreshToken → Bool) → Keeps (IsOwnedWith id) (b.delete_tokens p)
  delete_tokens-With id p w (o, account) =
      delete_tokens-Post b L p w (remove_tokens w o p, account) (λ _ _. (o, account))

  pub create_token-With : (t : RefreshToken) → Keeps (IsOwnedWith t.user_id) (b.create_token t)
  create_token-With t w (o, account) =
      create_token-Post b L t w (λ _ _. (add_token w o t account, account)) (λ _ _. (o, account))
