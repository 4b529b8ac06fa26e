-- ===== src/Client/Session.antt =====
-- apps/client-mx/src/app/store/user-manager/user-manager.ts and
-- http/auth-interceptor/auth-interceptor.service.ts, over the refresh manager. A user, a request and an error
-- are numbers. Each method is one function up to its await, and one from the await on.
pub mod Recovery
use demo_t.Base.{
  ℕ, Bool, true, false, not, Option, none, some, List, String, ◌==◌, ◌&&◌, ◌-◌, ◌/◌, ltb, any,
  codes, starts_with, if◌then◌else◌,
}
use demo_t.Client.Refresh.{
  Manager, handle_token_refresh, reset_refresh_failure_state, start_proactive_refresh,
  stop_proactive_refresh,
}

-- The fields of `UserManager`, with the refresh manager that it holds.
pub record Session : Type 0 where
  pub user_profile_data : Option ℕ
  pub is_loading : Bool
  pub manager : Manager

-- The refresh ahead of time starts only with a time that is not 0.
abbrev pub started : Option ℕ → Manager → Manager
started none m = m
started (some seconds) m = if seconds == 0 then m else start_proactive_refresh seconds m

unfoldable pub set_user_data : Option ℕ → Option ℕ → Session → Session
set_user_data none expires_in_seconds s = record s {
  user_profile_data = none;
  manager = stop_proactive_refresh s.manager;
}
set_user_data (some user) expires_in_seconds s = record s {
  user_profile_data = some user;
  manager = started expires_in_seconds (reset_refresh_failure_state s.manager);
}

-- The names and values of `document.cookie`.
unfoldable pub has_session_cookie : List String → Bool
has_session_cookie cookies = any (λ c. starts_with (codes c) (codes "refreshTokenPub=")) cookies

-- The cookie `accessTokenPub`, where the browser has a cookie store, with its expiry in milliseconds.
unfoldable pub get_access_token_expires_in : Bool → Option (Option ℕ) → ℕ → Option ℕ
get_access_token_expires_in true (some (some expires)) now =
    if ltb 0 ((expires - now) / 1000) then some ((expires - now) / 1000) else none
get_access_token_expires_in _ _ now = none

-- `fetchUserData` up to its await; without a session cookie it ends here.
unfoldable pub fetch_user_data : List String → Session → Session
fetch_user_data cookies s =
    if has_session_cookie cookies
    then record s { is_loading = true }
    else record (set_user_data none none s) { is_loading = false }

-- From the await on: the profile, or `none` for `false`, and the seconds until the token expires.
unfoldable pub on_profile : Option ℕ → Option ℕ → Session → Session
on_profile none expires_in_seconds s = record (set_user_data none none s) { is_loading = false }
on_profile (some user) expires_in_seconds s =
    record (set_user_data (some user) expires_in_seconds s) { is_loading = false }

-- `logout` after the request was answered; a request that fails throws, and changes nothing.
unfoldable pub on_logout : Session → Session
on_logout s = set_user_data none none s

unfoldable pub handle_token_refresh_failure : Session → Session
handle_token_refresh_failure s = set_user_data none none s

-- The interceptor on an error answer, up to its await: it hands a request that was refused with 401 to the
-- refresh manager, unless the request asks not to; any other error is passed on.
unfoldable pub intercept : Option ℕ → Bool → ℕ → Session → Session
intercept none skip_auth_refresh request s = s
intercept (some status) skip_auth_refresh request s =
    if status == 401 && not skip_auth_refresh
    then record s { manager = handle_token_refresh request s.manager }
    else s

-- From the await on, where the awaited promise was rejected: by the refresh, or by the request sent again.
unfoldable pub on_rejected : Session → Session
on_rejected s = handle_token_refresh_failure s
