-- ===== src/Auth/Backend.antt =====
-- The libraries and servers that the auth service calls: Prisma over PostgreSQL, Redis, RabbitMQ,
-- jsonwebtoken and bcrypt. None is part of the repository, so `Crypto` and `Backend` are parameters
-- of every method; `IsBackend` states the documented behaviour that the proofs rely on, where every
-- call may also fail and then leaves the state alone.
pub mod Rules
pub mod InMemory
use demo_t.Base.{
  ℕ, String, Bool, true, false, not, Option, none, some, List, [], ◌∷◌, ◌≡◌, ◌≢◌, ◌⊎◌, ◌&&◌, ◌==◌,
  ◌===◌, leb, ltb, length, keep, find, any, change, drop_where, ◌+◌, ◌*◌,
}
use demo_t.Errors.Exceptions.{Exception, Result, ok, err}
use demo_t.Auth.Rows.{
  User, RefreshToken, Entry, UserRegistrationInitiatedEvent, World, UserKey, by_email, missing_id,
  matches, is_user, is_token, is_token_of, client,
}
use demo_t.Auth.Action.{Action, Post}

-- libs/models/src/api-auth/api-common.ts: what the two kinds of token carry.
pub data Payload : Type 0 where
  access : ℕ → String → String → Payload
  refresh : ℕ → String → String → Payload

-- A token is signed with a secret, for a number of seconds, at a time; it is verified with a secret
-- at a time.
pub record Crypto : Type 0 where
  pub sign : Option String → ℕ → ℕ → Payload → Result String
  pub verify : Option String → ℕ → String → Result Payload
  pub hash : String → ℕ → Result String
  pub compare : String → String → Result Bool
  pub lower : String → String
  pub jwt_secret : Option String
  pub jwt_refresh_secret : Option String

-- The columns that `user.create` is given.
pub record UserData : Type 0 where
  pub email : String
  pub password : String
  pub name : Option String
  pub original_email : Option String

abbrev pub new_user : ℕ → ℕ → UserData → User
new_user id now fields = record {
  id = id;
  name = fields.name;
  password = fields.password;
  email = fields.email;
  role = client;
  settings = "{}";
  is_active = true;
  deleted_at = none;
  original_email = fields.original_email;
  email_verified = false;
  email_verified_at = none;
  created_at = now;
  updated_at = now;
}

-- Every call that reads the server's clock takes the time of the call.
pub record Backend : Type 0 where
  pub find_user : UserKey → Action (Option User)
  pub create_user : UserData → ℕ → Action User
  pub update_user : ℕ → (User → User) → ℕ → Action User
  pub delete_user : ℕ → Action (Unit {0})
  pub delete_users : (User → Bool) → Action ℕ
  pub find_token : String → Action (Option RefreshToken)
  pub find_tokens : (RefreshToken → Bool) → Action (List RefreshToken)
  pub find_tokens_by_use : (RefreshToken → Bool) → Action (List RefreshToken)
  pub create_token : RefreshToken → Action (Unit {0})
  pub update_token : String → (RefreshToken → RefreshToken) → Action (Unit {0})
  pub delete_token : String → Action (Unit {0})
  pub delete_tokens : (RefreshToken → Bool) → Action ℕ
  pub transaction : Action User → Action User
  pub redis_get : String → ℕ → Action (Option String)
  pub redis_setex : String → ℕ → String → ℕ → Action (Unit {0})
  pub redis_del : String → Action (Unit {0})
  pub emit : UserRegistrationInitiatedEvent → Action (Unit {0})

-- A call that throws leaves the state alone, and it throws only for the reason given.
abbrev pub Refuses : Type 0 → World → Exception → World → Type 0
Refuses reason w e u = (u ≡ w) × reason

-- The call returned this value in this state, or threw.
abbrev pub Serves : {A : Type 0} → Type 0 → A → World → World → Result A × World → Type 0
Serves reason v w' w x = Post (λ a u. (a ≡ v) × (u ≡ w')) (Refuses reason w) x

-- `orderBy: { last_used_at: 'asc' }`: PostgreSQL puts NULL last.
abbrev pub used_before : Option ℕ → Option ℕ → Bool
used_before (some a) (some b) = leb a b
used_before (some a) none = true
used_before none (some b) = false
used_before none none = true

abbrev pub IsSortedByUse : List RefreshToken → Type 0
IsSortedByUse [] = Unit
IsSortedByUse (t ∷ ts) =
    (keep (λ u. not (used_before t.last_used_at u.last_used_at)) ts ≡ []) × IsSortedByUse ts

-- The same rows, as often.
abbrev pub SameRows : List RefreshToken → List RefreshToken → Type 0
SameRows ts us = (p : RefreshToken → Bool) → length (keep p ts) ≡ length (keep p us)

-- The foreign key `onDelete: Cascade`.
abbrev pub orphaned_by : (User → Bool) → List User → RefreshToken → Bool
orphaned_by p users t = any (λ u. p u && u.id == t.user_id) users

abbrev pub live_entry : String → ℕ → Entry → Bool
live_entry key now e = e.key === key && ltb now e.expires_at

abbrev pub entry_value : Option Entry → Option String
entry_value none = none
entry_value (some e) = some e.value

abbrev pub touched : (User → User) → ℕ → User → User
touched f now u = record (f u) { updated_at = now }

abbrev pub has_unique_emails : List User → Bool
has_unique_emails [] = true
has_unique_emails (u ∷ us) = not (any (matches (by_email u.email)) us) && has_unique_emails us

abbrev pub has_unique_ids : List RefreshToken → Bool
has_unique_ids [] = true
has_unique_ids (t ∷ ts) = not (any (is_token t.id) ts) && has_unique_ids ts

-- Why a query for a user may throw: Prisma refuses an `undefined` id.
abbrev pub FindFault : Type 0 → UserKey → Type 0
FindFault Fault missing_id = Unit
FindFault Fault _ = Fault

-- `Fault` says what may go wrong in the servers: `⊥` for servers that always answer, `Unit` for
-- servers of which nothing is known. A call also throws where the schema refuses it.
pub record IsBackend (Fault : Type 0) (b : Backend) : Type 0 where
  pub finds_user :
      (k : UserKey) (w : World)
      → Serves (FindFault Fault k) (find (matches k) w.users) w w (b.find_user k w)
  pub refuses_missing_id : (w : World) → Post (λ _ _. ⊥) (λ _ w'. w' ≡ w) (b.find_user missing_id w)
  -- A new row has an id and an email of its own.
  pub creates_user :
      (fields : UserData) (now : ℕ) (w : World)
      → Post
          (λ u w'.
            (u ≡ new_user u.id now fields)
            × (find (is_user u.id) w.users ≡ none)
            × (find (matches (by_email fields.email)) w.users ≡ none)
            × (w' ≡ record w { users = u ∷ w.users }))
          (Refuses (Fault ⊎ (find (matches (by_email fields.email)) w.users ≢ none)) w)
          (b.create_user fields now w)
  -- Prisma sets `updated_at` on every update. An email that another row has is refused.
  pub updates_user :
      (id : ℕ) (f : User → User) (now : ℕ) (w : World)
      → Post
          (λ u w'.
            (find (is_user id) w'.users ≡ some u)
            × (w' ≡ record w { users = change (is_user id) (touched f now) w.users }))
          (Refuses
            (Fault
              ⊎ (find (is_user id) (change (is_user id) (touched f now) w.users) ≡ none)
              ⊎ (has_unique_emails (change (is_user id) (touched f now) w.users) ≡ false))
            w)
          (b.update_user id f now w)
  pub deletes_user :
      (id : ℕ) (w : World)
      → Serves
          (Fault ⊎ (find (is_user id) w.users ≡ none))
          tt
          (record w {
            users = drop_where (is_user id) w.users;
            tokens = drop_where (orphaned_by (is_user id) w.users) w.tokens;
          })
          w
          (b.delete_user id w)
  pub deletes_users :
      (p : User → Bool) (w : World)
      → Serves Fault
          (length (keep p w.users))
          (record w {
            users = drop_where p w.users;
            tokens = drop_where (orphaned_by p w.users) w.tokens;
          })
          w
          (b.delete_users p w)
  pub finds_token :
      (id : String) (w : World) → Serves Fault (find (is_token id) w.tokens) w w (b.find_token id w)
  pub finds_tokens :
      (p : RefreshToken → Bool) (w : World)
      → Post
          (λ ts w'. SameRows ts (keep p w.tokens) × (w' ≡ w))
          (Refuses Fault w)
          (b.find_tokens p w)
  pub finds_tokens_by_use :
      (p : RefreshToken → Bool) (w : World)
      → Post
          (λ ts w'. SameRows ts (keep p w.tokens) × IsSortedByUse ts × (w' ≡ w))
          (Refuses Fault w)
          (b.find_tokens_by_use p w)
  -- The primary key and the foreign key of the table.
  pub creates_token :
      (t : RefreshToken) (w : World)
      → Post
          (λ _ w'.
            (any (is_token t.id) w.tokens ≡ false)
            × (any (is_user t.user_id) w.users ≡ true)
            × (w' ≡ record w { tokens = t ∷ w.tokens }))
          (Refuses
            (Fault
              ⊎ (any (is_token t.id) w.tokens ≡ true)
              ⊎ (any (is_user t.user_id) w.users ≡ false))
            w)
          (b.create_token t w)
  pub updates_token :
      (id : String) (f : RefreshToken → RefreshToken) (w : World)
      → Serves
          (Fault
            ⊎ (any (is_token id) w.tokens ≡ false)
            ⊎ (has_unique_ids (change (is_token id) f w.tokens) ≡ false))
          tt
          (record w { tokens = change (is_token id) f w.tokens })
          w
          (b.update_token id f w)
  pub deletes_token :
      (id : String) (w : World)
      → Serves
          (Fault ⊎ (any (is_token id) w.tokens ≡ false))
          tt
          (record w { tokens = drop_where (is_token id) w.tokens })
          w
          (b.delete_token id w)
  pub deletes_tokens :
      (p : RefreshToken → Bool) (w : World)
      → Serves Fault
          (length (keep p w.tokens))
          (record w { tokens = drop_where p w.tokens })
          w
          (b.delete_tokens p w)
  -- A transaction commits what its body did and returned, or throws and undoes all of it.
  pub transacts :
      (m : Action User) (w : World)
      → ((u : User) × (w' : World) × (m w ≡ (ok u, w')) × (b.transaction m w ≡ (ok u, w')))
        ⊎ ((e : Exception) × (b.transaction m w ≡ (err e, w))
            × (Fault ⊎ ((e' : Exception) × (w' : World) × (m w ≡ (err e', w')))))
  pub gets :
      (key : String) (now : ℕ) (w : World)
      → Serves Fault (entry_value (find (live_entry key now) w.redis)) w w (b.redis_get key now w)
  pub setexes :
      (key : String) (seconds : ℕ) (value : String) (now : ℕ) (w : World)
      → Serves Fault tt
          (record w {
            redis =
                record { key = key; value = value; expires_at = now + seconds * 1000 }
                ∷ drop_where (λ e. e.key === key) w.redis;
          })
          w
          (b.redis_setex key seconds value now w)
  pub dels :
      (key : String) (w : World)
      → Serves Fault tt
          (record w { redis = drop_where (λ e. e.key === key) w.redis })
          w
          (b.redis_del key w)
  pub emits :
      (event : UserRegistrationInitiatedEvent) (w : World)
      → Serves Fault tt (record w { events = event ∷ w.events }) w (b.emit event w)
