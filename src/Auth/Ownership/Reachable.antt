-- ===== src/Auth/Ownership/Reachable.antt =====
-- The auth service's methods in any order, at any times and with any arguments, from an empty database.
use demo_t.Base.{ℕ, String, List, [], refl}
use demo_t.Errors.Exceptions.{Result, ok, err}
use demo_t.Auth.Rows.{World, DeviceInfo}
use demo_t.Auth.Action.{Action, Post}
use demo_t.Auth.Backend.{Crypto, Backend, IsBackend}
use demo_t.Auth.Sessions.{sign_in, refresh_token, revoke_refresh_token, logout_all_devices}
use demo_t.Auth.Users.{
  CreateUserParams, UpdateUserParams, update_user, soft_delete_user, hard_delete_user,
  cleanup_unverified_users,
}
use demo_t.Auth.Cleanup.{daily_cleanup, weekly_deep_cleanup}
use demo_t.Auth.EmailVerification.{register, verify_email}
use demo_t.Auth.Ownership.{IsOwned}
use demo_t.Auth.Ownership.Rules.{Keeps}
use demo_t.Auth.Ownership.SignIn.{sign_in-Keeps}
use demo_t.Auth.Ownership.Sessions.{
  refresh_token-Keeps, revoke_refresh_token-Keeps, logout_all_devices-Keeps, daily_cleanup-Keeps,
  weekly_deep_cleanup-Keeps,
}
use demo_t.Auth.Ownership.Accounts.{
  register-Keeps, verify_email-Keeps, update_user-IsOwned, soft_delete_user-Keeps,
  hard_delete_user-Keeps, cleanup_unverified_users-Keeps,
}

abbrev pub empty : World
empty = record { users = []; tokens = []; redis = []; events = [] }

-- The state after a method, whether it returned or threw.
abbrev pub after : {A : Type 0} → Action A → World → World
after m w = (m w).1

-- The states that the service reaches: one constructor for each method that writes. The random ids, the clock
-- and the arguments are any.
pub data Reachable (c : Crypto) (b : Backend) (to_string : ℕ → String) : World → Type 0 where
  start : Reachable c b to_string empty
  registers :
      {w : World} (now : ℕ) (token : String) (params : CreateUserParams)
      → Reachable c b to_string w
      → Reachable c b to_string (after (register c b to_string now token params) w)
  verifies_email :
      {w : World} (now : ℕ) (token : String)
      → Reachable c b to_string w
      → Reachable c b to_string (after (verify_email b now token) w)
  signs_in :
      {w : World} (now : ℕ) (token_id email password : String) (device : DeviceInfo)
      → Reachable c b to_string w
      → Reachable c b to_string (after (sign_in c b now token_id email password device) w)
  refreshes :
      {w : World} (now : ℕ) (new_id token : String) (device : DeviceInfo)
      → Reachable c b to_string w
      → Reachable c b to_string (after (refresh_token c b now new_id token device) w)
  revokes :
      {w : World} (now : ℕ) (token : String)
      → Reachable c b to_string w
      → Reachable c b to_string (after (revoke_refresh_token c b now token) w)
  logs_out_all :
      {w : World} (now : ℕ) (token : String) (id : ℕ)
      → Reachable c b to_string w
      → Reachable c b to_string (after (logout_all_devices c b now token id) w)
  updates :
      {w : World} (now : ℕ) (token : String) (id : ℕ) (params : UpdateUserParams)
      → Reachable c b to_string w
      → Reachable c b to_string (after (update_user c b now token id params) w)
  soft_deletes :
      {w : World} (now : ℕ) (token : String) (id : ℕ)
      → Reachable c b to_string w
      → Reachable c b to_string (after (soft_delete_user c b now token id) w)
  hard_deletes :
      {w : World} (now : ℕ) (token : String) (id : ℕ)
      → Reachable c b to_string w
      → Reachable c b to_string (after (hard_delete_user c b now token id) w)
  cleans_daily :
      {w : World} (now : ℕ) (times : List ℕ)
      → Reachable c b to_string w
      → Reachable c b to_string (after (daily_cleanup b now times) w)
  cleans_weekly :
      {w : World} (now : ℕ) (times : List ℕ)
      → Reachable c b to_string w
      → Reachable c b to_string (after (weekly_deep_cleanup b now times) w)
  cleans_users :
      {w : World} (now : ℕ)
      → Reachable c b to_string w
      → Reachable c b to_string (after (cleanup_unverified_users c b now) w)

Post-state :
    {A : Type 0} {I : World → Type 0} (x : Result A × World)
    → Post (λ _ w. I w) (λ _ w. I w) x
    → I x.1
Post-state (ok a, w) h = h.holds
Post-state (err e, w) h = h.holds

after-Keeps :
    {A : Type 0} (m : Action A) (w : World) → Keeps IsOwned m → IsOwned w → IsOwned (after m w)
after-Keeps m w k o = Post-state (m w) (k w o)

-- In every state that the service reaches from an empty database, every stored refresh token belongs to an
-- account that is there and active, whatever the servers refused on the way.
pub Reachable-IsOwned :
    {Fault : Type 0} {c : Crypto} {b : Backend} {to_string : ℕ → String} (L : IsBackend Fault b)
    {w : World}
    → Reachable c b to_string w
    → IsOwned w
Reachable-IsOwned L start = refl
Reachable-IsOwned {c} {b} {to_string} L (registers {w} now token params r) =
    after-Keeps (register c b to_string now token params) w
      (register-Keeps c b L now to_string token params) (Reachable-IsOwned L r)
Reachable-IsOwned {c} {b} L (verifies_email {w} now token r) =
    after-Keeps (verify_email b now token) w (verify_email-Keeps c b L now token)
      (Reachable-IsOwned L r)
Reachable-IsOwned {c} {b} L (signs_in {w} now token_id email password device r) =
    after-Keeps (sign_in c b now token_id email password device) w
      (sign_in-Keeps c b L now token_id email password device) (Reachable-IsOwned L r)
Reachable-IsOwned {c} {b} L (refreshes {w} now new_id token device r) =
    after-Keeps (refresh_token c b now new_id token device) w
      (refresh_token-Keeps c b L now new_id token device) (Reachable-IsOwned L r)
Reachable-IsOwned {c} {b} L (revokes {w} now token r) =
    after-Keeps (revoke_refresh_token c b now token) w (revoke_refresh_token-Keeps c b L now token)
      (Reachable-IsOwned L r)
Reachable-IsOwned {c} {b} L (logs_out_all {w} now token id r) =
    after-Keeps (logout_all_devices c b now token id) w
      (logout_all_devices-Keeps c b L now token id) (Reachable-IsOwned L r)
Reachable-IsOwned {c} {b} L (updates {w} now token id params r) =
    after-Keeps (update_user c b now token id params) w
      (update_user-IsOwned c b L now token id params) (Reachable-IsOwned L r)
Reachable-IsOwned {c} {b} L (soft_deletes {w} now token id r) =
    after-Keeps (soft_delete_user c b now token id) w (soft_delete_user-Keeps c b L now token id)
      (Reachable-IsOwned L r)
Reachable-IsOwned {c} {b} L (hard_deletes {w} now token id r) =
    after-Keeps (hard_delete_user c b now token id) w (hard_delete_user-Keeps c b L now token id)
      (Reachable-IsOwned L r)
Reachable-IsOwned {c} {b} L (cleans_daily {w} now times r) =
    after-Keeps (daily_cleanup b now times) w (daily_cleanup-Keeps c b L now times)
      (Reachable-IsOwned L r)
Reachable-IsOwned {c} {b} L (cleans_weekly {w} now times r) =
    after-Keeps (weekly_deep_cleanup b now times) w (weekly_deep_cleanup-Keeps c b L now times)
      (Reachable-IsOwned L r)
Reachable-IsOwned {c} {b} L (cleans_users {w} now r) =
    after-Keeps (cleanup_unverified_users c b now) w (cleanup_unverified_users-Keeps c b L now)
      (Reachable-IsOwned L r)
