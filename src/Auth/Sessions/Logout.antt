-- ===== src/Auth/Sessions/Logout.antt =====
-- Logging an account out of every device.
use demo_t.Base.{ℕ, String, ◌≡◌, refl, length, keep, drop_where, true}
use demo_t.Auth.Rows.{User, World, is_token_of}
use demo_t.Auth.Action.{Post, seq-Post}
use demo_t.Auth.Backend.{Crypto, Backend, IsBackend}
use demo_t.Auth.Backend.Rules.{delete_tokens-Post}
use demo_t.Auth.Permission.{UserDto}
use demo_t.Auth.Tokens.{revoke_all_refresh_tokens}
use demo_t.Auth.Sessions.{logout_all_devices}
use demo_t.Auth.Sessions.Authority.{HasAuthority, authority-Post}

-- A call that returns was made by a bearer with authority over the active target, removed exactly the
-- target's refresh tokens, and reports how many there were; a call that throws changed nothing.
pub logout_all_devices-authorised :
    {Fault : Type 0} (c : Crypto) (b : Backend) (L : IsBackend Fault b) (now : ℕ) (token : String)
    (id : ℕ) (w : World)
    → Post
        (λ answer w'.
          (current : UserDto) × (target : User) × HasAuthority c now token id w current target
          × (target.is_active ≡ true)
          × (answer.devices_logged_out ≡ length (keep (is_token_of id) w.tokens))
          × (w' ≡ record w { tokens = drop_where (is_token_of id) w.tokens }))
        (λ _ w'. w' ≡ w)
        (logout_all_devices c b now token id w)
unfolding logout_all_devices revoke_all_refresh_tokens
logout_all_devices-authorised c b L now token id w =
    authority-Post c b L now token id _ w
      (λ current target may active. seq-Post (b.delete_tokens (is_token_of id)) (
        delete_tokens-Post b L (is_token_of id) w
          (record { holds = (current, target, may, active, refl, refl) }) (λ _ _. refl)))
      (λ _. refl)
