-- ===== src/Client/Session/Recovery.antt =====
-- How a session is lost and won back.
use demo_t.Base.{ℕ, true, false, Option, none, some, ◌≡◌, ◌∙◌, refl, ◌==◌, if-elim}
use demo_t.Client.Refresh.{
  for_request, threw, Manager, settle, take_off, handle_token_refresh, on_failure, clear,
  start_proactive_refresh, reset_refresh_failure_state,
}
use demo_t.Client.Session.{
  Session, set_user_data, started, intercept, on_rejected, handle_token_refresh_failure,
}

-- The refresh for a request has failed, and its interceptor has seen it.
abbrev pub lost : ℕ → ℕ → Session → Session
lost request error s =
    on_rejected (record s { manager = on_failure (for_request request) error s.manager })

-- The fields that stopping and starting the timeouts leave alone.
record SameState (m n : Manager) : Type 0 where
  same_failed : n.has_refresh_failed ≡ m.has_refresh_failed
  same_error : n.last_refresh_error ≡ m.last_refresh_error
  same_refreshing : n.is_refreshing ≡ m.is_refreshing
  same_flights : n.in_flight ≡ m.in_flight

clear-SameState : (o : Option ℕ) (m : Manager) → SameState m (clear o m)
clear-SameState none m = record {
  same_failed = refl;
  same_error = refl;
  same_refreshing = refl;
  same_flights = refl;
}
clear-SameState (some h) m = record {
  same_failed = refl;
  same_error = refl;
  same_refreshing = refl;
  same_flights = refl;
}

start-SameState : (seconds : ℕ) (m : Manager) → SameState m (start_proactive_refresh seconds m)
start-SameState seconds m =
    let k = clear-SameState m.proactive_refresh_interval m in
    record {
      same_failed = k.same_failed;
      same_error = k.same_error;
      same_refreshing = k.same_refreshing;
      same_flights = k.same_flights;
    }

started-SameState : (seconds : Option ℕ) (m : Manager) → SameState m (started seconds m)
started-SameState none m = clear-SameState none m
started-SameState (some n) m =
    if-elim (SameState m) (n == 0) m (start_proactive_refresh n m) (λ _. clear-SameState none m)
      (λ _. start-SameState n m)

refused-again :
    (request error : ℕ) (m : Manager)
    → m.has_refresh_failed ≡ true
    → m.last_refresh_error ≡ some error
    → handle_token_refresh request m ≡ settle (threw request (some error)) m
unfolding handle_token_refresh
refused-again request error m failed last = rw (failed, last) refl

takes_off :
    (request : ℕ) (m : Manager)
    → m.has_refresh_failed ≡ false
    → m.is_refreshing ≡ false
    → handle_token_refresh request m ≡ take_off (for_request request) m
unfolding handle_token_refresh
takes_off request m fine idle = rw (fine, idle) refl

module _ (request error : ℕ) (s : Session) where
  abbrev stopped : Manager
  stopped = on_failure (for_request request) error s.manager

  lost-failed : SameState stopped (lost request error s).manager
  unfolding on_rejected handle_token_refresh_failure set_user_data
  lost-failed = clear-SameState stopped.proactive_refresh_interval stopped

  -- The state of the manager after a sign-in.
  abbrev pub signed_in_again : ℕ → Option ℕ → Session
  signed_in_again user seconds = set_user_data (some user) seconds (lost request error s)

  -- When the refresh for a request fails, the user is signed out, and the next request that is refused with 401
  -- is refused with the same error without another refresh. Once someone has signed in again, such a request
  -- starts a refresh.
  pub lost-recovers :
      (next user : ℕ) (seconds : Option ℕ)
      → ((lost request error s).user_profile_data ≡ none)
        × ((intercept (some 401) false next (lost request error s)).manager
            ≡ settle (threw next (some error)) (lost request error s).manager)
        × ((intercept (some 401) false next (signed_in_again user seconds)).manager
            ≡ take_off (for_request next) (signed_in_again user seconds).manager)
  unfolding intercept set_user_data on_rejected handle_token_refresh_failure on_failure
  lost-recovers next user seconds = (
    refl,
    refused-again next error (lost request error s).manager lost-failed.same_failed
        lost-failed.same_error,
    takes_off next _
        (started-SameState seconds
          (reset_refresh_failure_state (lost request error s).manager)).same_failed
        ((started-SameState seconds
            (reset_refresh_failure_state (lost request error s).manager)).same_refreshing
          ∙ lost-failed.same_refreshing),
  )
