-- ===== src/Client/Refresh/Waiting.antt =====
-- Every request is accounted for, and none waits for nothing while no timeout interferes.
use demo_t.Base.{
  ℕ, Bool, true, false, not, Option, none, some, List, [], ◌∷◌, ◌++◌, map, ◌≡◌, refl, ap, inl, inr,
  ◌+◌, ◌&&◌, keep, length, all, arith, if-elim,
}
use demo_t.Client.Refresh.{
  Flight, for_request, proactive, Outcome, retried, threw, Manager, settled, clear,
  handle_token_refresh, on_timer, on_success, on_failure, Reachable, start, asks, succeeds, fails,
  fires, resets, starts, stops,
}
use demo_t.Client.Refresh.Settlement.{asker, IsCoherent, Reachable-IsCoherent}

-- The requests that started the refreshes in flight.
abbrev pub requests : List Flight → List ℕ
requests [] = []
requests (for_request r ∷ ks) = r ∷ requests ks
requests (proactive ∷ ks) = requests ks

abbrev pub settlements : (ℕ → Bool) → List Outcome → ℕ
settlements p os = length (keep (λ o. p (asker o)) os)

-- Every request that was handed over waits, has started a refresh in flight, or is settled, as often as
-- it was handed over.
abbrev pub IsAccounted : List ℕ → Manager → Type 0
IsAccounted rs m =
    (p : ℕ → Bool)
    → length (keep p rs)
      ≡ length (keep p m.failed_queue)
        + (length (keep p (requests m.in_flight)) + settlements p m.outcomes)

module _ (p : ℕ → Bool) where
  length-keep-append :
      (q s : List ℕ) → length (keep p (q ++ s)) ≡ length (keep p q) + length (keep p s)
  length-keep-append [] s = omega arith
  length-keep-append (r ∷ q) s = ground (arith, length-keep-append q s)

  settlements-process :
      (o : Option ℕ) (q : List ℕ) (os : List Outcome)
      → settlements p (map (settled o) q ++ os) ≡ length (keep p q) + settlements p os
  settlements-process o [] os = omega arith
  settlements-process none (r ∷ q) os = ground (arith, settlements-process none q os)
  settlements-process (some e) (r ∷ q) os = ground (arith, settlements-process (some e) q os)

  settlements-settle :
      (u : Outcome) (os : List Outcome)
      → settlements p (u ∷ os) ≡ length (keep p (asker u ∷ [])) + settlements p os
  settlements-settle u os = ground arith

  requests-land :
      (before after : List Flight) (k : Flight)
      → length (keep p (requests (before ++ k ∷ after)))
        ≡ length (keep p (requests (k ∷ []))) + length (keep p (requests (before ++ after)))
  requests-land [] after (for_request r) = ground arith
  requests-land [] after proactive = omega arith
  requests-land (for_request s ∷ before) after k = ground (arith, requests-land before after k)
  requests-land (proactive ∷ before) after k = requests-land before after k

handle_token_refresh-IsAccounted :
    (r : ℕ) (rs : List ℕ) (m : Manager)
    → IsAccounted rs m
    → IsAccounted (r ∷ rs) (handle_token_refresh r m)
unfolding handle_token_refresh
handle_token_refresh-IsAccounted r rs m h =
    if-elim (IsAccounted (r ∷ rs)) m.has_refresh_failed _ _ (λ _ p. ground (arith, h p))
      (λ _.
        if-elim (IsAccounted (r ∷ rs)) m.is_refreshing _ _
          (λ _ p. ground (arith, h p, length-keep-append p m.failed_queue (r ∷ [])))
          (λ _ p. ground (arith, h p)))

on_timer-IsAccounted : (rs : List ℕ) (m : Manager) → IsAccounted rs m → IsAccounted rs (on_timer m)
unfolding on_timer
on_timer-IsAccounted rs m h =
    if-elim (IsAccounted rs) (not m.has_refresh_failed && not m.is_refreshing) _ _ (λ _. h) (λ _. h)

clear-IsAccounted :
    (o : Option ℕ) (rs : List ℕ) (m : Manager) → IsAccounted rs m → IsAccounted rs (clear o m)
clear-IsAccounted none rs m h = h
clear-IsAccounted (some t) rs m h = h

-- A flight for a request that lands settles the queue and its own request.
lands :
    (rs : List ℕ) (m : Manager) (before after : List Flight) (r : ℕ) (o : Option ℕ) (u : Outcome)
    → asker u ≡ r
    → m.in_flight ≡ before ++ for_request r ∷ after
    → IsAccounted rs m
    → (p : ℕ → Bool)
    → length (keep p rs)
      ≡ length (keep p (requests (before ++ after)))
        + settlements p (u ∷ (map (settled o) m.failed_queue ++ m.outcomes))
lands rs m before after r o u own e h p = omega (
  arith,
  h p,
  ap (λ ks. length (keep p (requests ks))) e,
  requests-land p before after (for_request r),
  settlements-process p o m.failed_queue m.outcomes,
  settlements-settle p u (map (settled o) m.failed_queue ++ m.outcomes),
  ap (λ a. length (keep p (a ∷ []))) own,
)

-- At every reachable state each request that was handed over waits in the queue, has started a refresh
-- in flight, or is settled: none is lost and none is settled twice.
pub Reachable-IsAccounted :
    {timeouts : Bool} {rs : List ℕ} {m : Manager} → Reachable timeouts rs m → IsAccounted rs m
unfolding on_success on_failure
Reachable-IsAccounted start = λ p. omega arith
Reachable-IsAccounted (asks {rs = rs} {m = m} r s) =
    handle_token_refresh-IsAccounted r rs m (Reachable-IsAccounted s)
Reachable-IsAccounted (succeeds {rs = rs} {m = m} before after (for_request r) n e s) = λ p.
    omega (arith, lands rs m before after r none (retried r) refl e (Reachable-IsAccounted s) p)
Reachable-IsAccounted (succeeds {m = m} before after proactive n e s) = λ p. omega (
  arith,
  Reachable-IsAccounted s p,
  requests-land p before after proactive,
  ap (λ ks. length (keep p (requests ks))) e,
)
Reachable-IsAccounted (fails {rs = rs} {m = m} before after (for_request r) error e s) = λ p.
    omega (
      arith,
      lands rs m before after r m.last_refresh_error (threw r (some error)) refl e
          (Reachable-IsAccounted s) p,
    )
Reachable-IsAccounted (fails {m = m} before after proactive error e s) = λ p. omega (
  arith,
  Reachable-IsAccounted s p,
  requests-land p before after proactive,
  ap (λ ks. length (keep p (requests ks))) e,
)
Reachable-IsAccounted (fires {rs = rs} {m = m} before after t on e s) =
    on_timer-IsAccounted rs (record m { timers = before ++ after }) (Reachable-IsAccounted s)
Reachable-IsAccounted (resets s) = Reachable-IsAccounted s
Reachable-IsAccounted (starts {rs = rs} {m = m} n s) =
    clear-IsAccounted m.proactive_refresh_interval rs m (Reachable-IsAccounted s)
Reachable-IsAccounted (stops {rs = rs} {m = m} s) =
    clear-IsAccounted m.proactive_refresh_interval rs m (Reachable-IsAccounted s)

abbrev is_for_request : Flight → Bool
is_for_request (for_request r) = true
is_for_request proactive = false

-- What starts a refresh is a request, and nobody waits while none is in flight.
abbrev IsServed : Manager → Type 0
IsServed m =
    (all is_for_request m.in_flight ≡ true) × (m.is_refreshing ≡ false → m.failed_queue ≡ [])

handle_token_refresh-IsServed :
    (r : ℕ) (m : Manager) → IsServed m → IsServed (handle_token_refresh r m)
unfolding handle_token_refresh
handle_token_refresh-IsServed r m (only, served) =
    if-elim IsServed m.has_refresh_failed _ _ (λ _. (only, served))
      (λ _.
        if-elim IsServed m.is_refreshing _ _ (λ busy. (only, λ idle. cc)) (λ _. (only, λ idle. cc)))

clear-IsServed : (o : Option ℕ) (m : Manager) → IsServed m → IsServed (clear o m)
clear-IsServed none m h = h
clear-IsServed (some t) m h = h

all-land :
    (before after : List Flight) (k : Flight)
    → all is_for_request (before ++ k ∷ after) ≡ true
    → (is_for_request k ≡ true) × (all is_for_request (before ++ after) ≡ true)
all-land [] after k h = ground (arith, h)
all-land (j ∷ before) after k h = ground (arith, all-land before after k)

Reachable-IsServed : {rs : List ℕ} {m : Manager} → Reachable false rs m → IsServed m
unfolding on_success on_failure
Reachable-IsServed start = (refl, λ _. refl)
Reachable-IsServed (asks {m = m} r s) = handle_token_refresh-IsServed r m (Reachable-IsServed s)
Reachable-IsServed (succeeds before after (for_request r) n e s) =
    ((all-land before after _ (rw e at (Reachable-IsServed s).0)).1, λ _. refl)
Reachable-IsServed (succeeds before after proactive n e s) =
    let never = (all-land before after proactive (rw e at (Reachable-IsServed s).0)).0 in cc
Reachable-IsServed (fails before after (for_request r) error e s) =
    ((all-land before after _ (rw e at (Reachable-IsServed s).0)).1, λ _. refl)
Reachable-IsServed (fails before after proactive error e s) =
    let never = (all-land before after proactive (rw e at (Reachable-IsServed s).0)).0 in cc
Reachable-IsServed (fires before after t on e s) = cc
Reachable-IsServed (resets s) = Reachable-IsServed s
Reachable-IsServed (starts {m = m} n s) =
    clear-IsServed m.proactive_refresh_interval m (Reachable-IsServed s)
Reachable-IsServed (stops {m = m} s) =
    clear-IsServed m.proactive_refresh_interval m (Reachable-IsServed s)

grounded : (m : Manager) → m.is_refreshing ≡ false → IsCoherent m → m.in_flight ≡ []
grounded m idle (_, inl (_, empty)) = empty
grounded m idle (_, inr (k, busy, _, _)) = cc

-- As long as no timeout fires, once nothing is refreshing every request that was handed over has been
-- settled, exactly once.
pub Reachable-settled :
    {rs : List ℕ} {m : Manager}
    → Reachable false rs m
    → m.is_refreshing ≡ false
    → (p : ℕ → Bool) → length (keep p rs) ≡ settlements p m.outcomes
Reachable-settled {m} s idle p = omega (
  arith,
  Reachable-IsAccounted s p,
  ap (λ q. length (keep p q)) ((Reachable-IsServed s).1 idle),
  ap (λ ks. length (keep p (requests ks))) (grounded m idle (Reachable-IsCoherent s)),
)
