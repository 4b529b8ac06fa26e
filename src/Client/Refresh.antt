-- ===== src/Client/Refresh.antt =====
-- apps/client-mx/src/app/store/refresh-token-manager/refresh-token-manager.ts: one token refresh for all
-- the requests that were refused with 401, and refreshes ahead of time. A request and an error are
-- numbers. Between two awaits the code runs alone, so each handler is one function, up to its await or
-- from the await on.
pub mod Settlement
pub mod Waiting
use demo_t.Base.{
  ℕ, Bool, true, false, not, Option, none, some, List, [], ◌∷◌, ◌++◌, map, ◌≡◌, ◌+◌, ◌-◌, ◌*◌, ◌==◌,
  ◌&&◌, max, keep, drop_where, if◌then◌else◌,
}

-- A refresh whose answer is awaited: for a refused request, or ahead of time.
pub data Flight : Type 0 where
  for_request : ℕ → Flight
  proactive : Flight

-- How the promise of a refused request was settled: by sending the request again, or with an error;
-- `threw none` is the fixed `Error` of the guard.
pub data Outcome : Type 0 where
  retried : ℕ → Outcome
  rejected : ℕ → ℕ → Outcome
  threw : ℕ → Option ℕ → Outcome

-- A pending timeout: its handle and its delay.
pub record Timer : Type 0 where
  pub handle : ℕ
  pub delay : ℕ

-- The manager's fields, and what it has started: the timeouts, the refreshes in flight and the promises
-- that were settled. `next_handle` is the handle that `setTimeout` returns next.
pub record Manager : Type 0 where
  pub is_refreshing : Bool
  pub failed_queue : List ℕ
  pub has_refresh_failed : Bool
  pub last_refresh_error : Option ℕ
  pub proactive_refresh_interval : Option ℕ
  pub timers : List Timer
  pub next_handle : ℕ
  pub in_flight : List Flight
  pub outcomes : List Outcome

abbrev pub initial : Manager
initial = record {
  is_refreshing = false;
  failed_queue = [];
  has_refresh_failed = false;
  last_refresh_error = none;
  proactive_refresh_interval = none;
  timers = [];
  next_handle = 0;
  in_flight = [];
  outcomes = [];
}

abbrev pub refresh_buffer_ms : ℕ
refresh_buffer_ms = 10 * 1000

-- A negative difference counts as 0, which `max` replaces too.
abbrev pub refresh_interval_ms : ℕ → ℕ
refresh_interval_ms expires_in_seconds = max (expires_in_seconds * 1000 - refresh_buffer_ms) 1000

abbrev pub settled : Option ℕ → ℕ → Outcome
settled none r = retried r
settled (some e) r = rejected r e

abbrev pub process_queue : Option ℕ → Manager → Manager
process_queue error m = record m {
  outcomes = map (settled error) m.failed_queue ++ m.outcomes;
  failed_queue = [];
}

abbrev pub schedule_next_proactive_refresh : ℕ → Manager → Manager
schedule_next_proactive_refresh expires_in_seconds m = record m {
  timers =
      record { handle = m.next_handle; delay = refresh_interval_ms expires_in_seconds } ∷ m.timers;
  proactive_refresh_interval = some m.next_handle;
  next_handle = m.next_handle + 1;
}

abbrev pub handle_refresh_failure : ℕ → Manager → Manager
handle_refresh_failure error m = record m {
  has_refresh_failed = true;
  last_refresh_error = some error;
}

abbrev pub reset_refresh_failure_state : Manager → Manager
reset_refresh_failure_state m = record m { has_refresh_failed = false; last_refresh_error = none }

abbrev pub clear : Option ℕ → Manager → Manager
clear none m = m
clear (some h) m = record m {
  timers = drop_where (λ t. t.handle == h) m.timers;
  proactive_refresh_interval = none;
}

abbrev pub stop_proactive_refresh : Manager → Manager
stop_proactive_refresh m = clear m.proactive_refresh_interval m

abbrev pub start_proactive_refresh : ℕ → Manager → Manager
start_proactive_refresh expires_in_seconds m =
    schedule_next_proactive_refresh expires_in_seconds (stop_proactive_refresh m)

abbrev pub take_off : Flight → Manager → Manager
take_off k m = record m { is_refreshing = true; in_flight = k ∷ m.in_flight }

abbrev pub settle : Outcome → Manager → Manager
settle o m = record m { outcomes = o ∷ m.outcomes }

-- `handleTokenRefresh` up to its await.
unfoldable pub handle_token_refresh : ℕ → Manager → Manager
handle_token_refresh r m =
    if m.has_refresh_failed
    then settle (threw r m.last_refresh_error) m
    else if m.is_refreshing
    then record m { failed_queue = m.failed_queue ++ r ∷ [] }
    else take_off (for_request r) m

-- The callback of a timeout, up to the await of `performProactiveRefresh`.
unfoldable pub on_timer : Manager → Manager
on_timer m = if not m.has_refresh_failed && not m.is_refreshing then take_off proactive m else m

-- From the await on, where the refresh was answered; the `finally` comes last.
unfoldable pub on_success : Flight → ℕ → Manager → Manager
on_success (for_request r) expires_in_seconds m =
    record (settle (retried r)
      (schedule_next_proactive_refresh expires_in_seconds (process_queue none m))) {
        is_refreshing = false;
      }
on_success proactive expires_in_seconds m =
    record (schedule_next_proactive_refresh expires_in_seconds m) { is_refreshing = false }

-- From the await on, where the refresh failed.
unfoldable pub on_failure : Flight → ℕ → Manager → Manager
on_failure (for_request r) error m =
    record (settle (threw r (some error))
      (handle_refresh_failure error (process_queue m.last_refresh_error m))) {
        is_refreshing = false;
      }
on_failure proactive error m = record (handle_refresh_failure error m) { is_refreshing = false }

-- The states that the manager reaches, with the requests that it was asked to handle, the last one
-- first. The flag says whether timeouts fire.
pub data Reachable (timeouts : Bool) : List ℕ → Manager → Type 0 where
  start : Reachable timeouts [] initial
  asks :
      {rs : List ℕ} {m : Manager} (r : ℕ)
      → Reachable timeouts rs m
      → Reachable timeouts (r ∷ rs) (handle_token_refresh r m)
  succeeds :
      {rs : List ℕ} {m : Manager} (before after : List Flight) (k : Flight) (expires_in_seconds : ℕ)
      → m.in_flight ≡ before ++ k ∷ after
      → Reachable timeouts rs m
      → Reachable timeouts rs
          (on_success k expires_in_seconds (record m { in_flight = before ++ after }))
  fails :
      {rs : List ℕ} {m : Manager} (before after : List Flight) (k : Flight) (error : ℕ)
      → m.in_flight ≡ before ++ k ∷ after
      → Reachable timeouts rs m
      → Reachable timeouts rs (on_failure k error (record m { in_flight = before ++ after }))
  fires :
      {rs : List ℕ} {m : Manager} (before after : List Timer) (t : Timer)
      → timeouts ≡ true
      → m.timers ≡ before ++ t ∷ after
      → Reachable timeouts rs m
      → Reachable timeouts rs (on_timer (record m { timers = before ++ after }))
  resets :
      {rs : List ℕ} {m : Manager}
      → Reachable timeouts rs m
      → Reachable timeouts rs (reset_refresh_failure_state m)
  starts :
      {rs : List ℕ} {m : Manager} (expires_in_seconds : ℕ)
      → Reachable timeouts rs m
      → Reachable timeouts rs (start_proactive_refresh expires_in_seconds m)
  stops :
      {rs : List ℕ} {m : Manager}
      → Reachable timeouts rs m
      → Reachable timeouts rs (stop_proactive_refresh m)
