-- ===== src/Auth/Backend/InMemory.antt =====
-- A backend that always answers, over the state's own lists: the methods run on it.
pub mod Lawful
pub mod Sorting
use demo_t.Base.{
  ℕ, String, Bool, true, false, not, Option, none, some, List, [], ◌∷◌, ◌≡◌, ◌≢◌, refl, ◌⊎◌, inl,
  inr, ◌===◌, ◌+◌, ◌*◌, ◌≤◌, max, arith, length, keep, find, any, change, drop_where, is_some,
  if◌then◌else◌, Bool-cases, Option-cases,
}
use demo_t.Errors.Exceptions.{Exception, database, Result, ok, err}
use demo_t.Auth.Rows.{
  User, RefreshToken, World, UserKey, by_email, missing_id, matches, is_user, is_token,
}
use demo_t.Auth.Action.{Action, Post}
use demo_t.Auth.Backend.{
  Backend, IsBackend, UserData, Serves, Refuses, IsSortedByUse, SameRows, used_before, new_user,
  touched, orphaned_by, entry_value, live_entry, has_unique_ids, has_unique_emails,
}
use demo_t.Auth.Backend.InMemory.Sorting.{insert_by_use, sort_by_use}

-- An id above every id in use.
unfoldable pub above : List User → ℕ
above [] = 0
above (u ∷ us) = max (u.id + 1) (above us)

unfoldable pub find_user : UserKey → Action (Option User)
find_user missing_id w = (
  err (
      Exception.named "PrismaClientValidationError" "Argument `where` needs at least one argument"),
  w,
)
find_user k w = (ok (find (matches k) w.users), w)

unfoldable pub create_user : UserData → ℕ → Action User
create_user fields now w =
    let u = new_user (above w.users) now fields in
    if is_some (find (matches (by_email fields.email)) w.users)
    then (err (database "P2002" "Unique constraint failed"), w)
    else (ok u, record w { users = u ∷ w.users })

unfoldable pub finish_update : Option User → List User → World → Result User × World
finish_update none users w = (err (database "P2025" "Record to update not found"), w)
finish_update (some u) users w =
    if has_unique_emails users
    then (ok u, record w { users = users })
    else (err (database "P2002" "Unique constraint failed"), w)

unfoldable pub update_user : ℕ → (User → User) → ℕ → Action User
update_user id f now w =
    let users = change (is_user id) (touched f now) w.users in
    finish_update (find (is_user id) users) users w

unfoldable pub delete_user : ℕ → Action (Unit {0})
delete_user id w =
    if is_some (find (is_user id) w.users)
    then (
      ok tt,
      record w {
        users = drop_where (is_user id) w.users;
        tokens = drop_where (orphaned_by (is_user id) w.users) w.tokens;
      },
    )
    else (err (database "P2025" "Record to delete does not exist"), w)

unfoldable pub delete_users : (User → Bool) → Action ℕ
delete_users p w = (
  ok (length (keep p w.users)),
  record w { users = drop_where p w.users; tokens = drop_where (orphaned_by p w.users) w.tokens },
)

unfoldable pub create_token : RefreshToken → Action (Unit {0})
create_token t w =
    if any (is_token t.id) w.tokens
    then (err (database "P2002" "Unique constraint failed"), w)
    else if any (is_user t.user_id) w.users
    then (ok tt, record w { tokens = t ∷ w.tokens })
    else (err (database "P2003" "Foreign key constraint failed"), w)

unfoldable pub update_token : String → (RefreshToken → RefreshToken) → Action (Unit {0})
update_token id f w =
    let tokens = change (is_token id) f w.tokens in
    if any (is_token id) w.tokens
    then (if has_unique_ids tokens
        then (ok tt, record w { tokens = tokens })
        else (err (database "P2002" "Unique constraint failed"), w))
    else (err (database "P2025" "Record to update not found"), w)

unfoldable pub delete_token : String → Action (Unit {0})
delete_token id w =
    if any (is_token id) w.tokens
    then (ok tt, record w { tokens = drop_where (is_token id) w.tokens })
    else (err (database "P2025" "Record to delete does not exist"), w)

unfoldable pub undo : World → Result User × World → Result User × World
undo w (ok u, w') = (ok u, w')
undo w (err e, w') = (err e, w)

unfoldable pub in_memory : Backend
unfolding find_user create_user update_user finish_update delete_user delete_users create_token
    update_token delete_token undo insert_by_use sort_by_use above
in_memory = record {
  find_user = find_user;
  create_user = create_user;
  update_user = update_user;
  delete_user = delete_user;
  delete_users = delete_users;
  find_token = λ id w. (ok (find (is_token id) w.tokens), w);
  find_tokens = λ p w. (ok (keep p w.tokens), w);
  find_tokens_by_use = λ p w. (ok (sort_by_use (keep p w.tokens)), w);
  create_token = create_token;
  update_token = update_token;
  delete_token = delete_token;
  delete_tokens =
      λ p w. (ok (length (keep p w.tokens)), record w { tokens = drop_where p w.tokens });
  transaction = λ m w. undo w (m w);
  redis_get = λ key now w. (ok (entry_value (find (live_entry key now) w.redis)), w);
  redis_setex = λ key seconds value now w. (
    ok tt,
    record w {
      redis =
          record { key = key; value = value; expires_at = now + seconds * 1000 }
          ∷ drop_where (λ e. e.key === key) w.redis;
    },
  );
  redis_del = λ key w. (ok tt, record w { redis = drop_where (λ e. e.key === key) w.redis });
  emit = λ event w. (ok tt, record w { events = event ∷ w.events });
}
