-- ===== src/Client/Refresh/Settlement.antt =====
-- One refresh at a time, and what becomes of the requests that wait for it.
use demo_t.Base.{
  ℕ, Bool, true, false, not, Option, none, some, List, [], ◌∷◌, ◌++◌, map, ◌≡◌, refl, ◌⊎◌, inl, inr,
  ◌&&◌, is_some, all, arith, if-elim, sym, ap, ◌∙◌, ◌≢◌,
}
use demo_t.Client.Refresh.{
  Flight, for_request, proactive, Outcome, retried, rejected, threw, Manager, settled, clear,
  reset_refresh_failure_state, handle_token_refresh, on_timer, on_success, on_failure, Reachable,
  start, asks, succeeds, fails, fires, resets, starts, stops,
}

-- Either no refresh is in flight, or exactly one is, and none has failed since the last reset.
abbrev pub IsCoherent : Manager → Type 0
IsCoherent m =
    (is_some m.last_refresh_error ≡ m.has_refresh_failed)
    × (((m.is_refreshing ≡ false) × (m.in_flight ≡ []))
        ⊎ ((k : Flight) × (m.is_refreshing ≡ true)
            × (m.in_flight ≡ k ∷ [])
            × (m.last_refresh_error ≡ none)))

-- The only flight is the one that comes back.
alone :
    (before after : List Flight) (k j : Flight)
    → j ∷ [] ≡ before ++ k ∷ after
    → before ++ after ≡ []
alone [] [] k j e = refl
alone [] (x ∷ after) k j e = cc
alone (x ∷ []) after k j e = cc
alone (x ∷ y ∷ before) after k j e = cc

not_empty : (before after : List Flight) (k : Flight) → [] ≢ before ++ k ∷ after
not_empty [] after k = λ e. cc
not_empty (x ∷ before) after k = λ e. cc

no_error : (o : Option ℕ) → is_some o ≡ false → o ≡ none
no_error none e = refl
no_error (some x) e = cc

landed :
    (m : Manager) (before after : List Flight) (k : Flight)
    → IsCoherent m
    → m.in_flight ≡ before ++ k ∷ after
    → (before ++ after ≡ []) × (m.last_refresh_error ≡ none) × (m.has_refresh_failed ≡ false)
landed m before after k (same, inl (idle, empty)) e =
    absurd (not_empty before after k (sym empty ∙ e))
landed m before after k (same, inr (j, busy, one, fine)) e =
    (alone before after k j (sym one ∙ e), fine, let noted = same in ground (arith, fine, noted))

-- Where nothing is refreshing, a flight that takes off is the only one.
takes_off :
    (k : Flight) (m : Manager)
    → m.is_refreshing ≡ false
    → ((m.is_refreshing ≡ false) × (m.in_flight ≡ []))
      ⊎ ((j : Flight) × (m.is_refreshing ≡ true)
          × (m.in_flight ≡ j ∷ [])
          × (m.last_refresh_error ≡ none))
    → k ∷ m.in_flight ≡ k ∷ []
takes_off k m idle (inl (_, empty)) = ap (λ ks. k ∷ ks) empty
takes_off k m idle (inr (j, busy, _, _)) = cc

handle_token_refresh-IsCoherent :
    (r : ℕ) (m : Manager) → IsCoherent m → IsCoherent (handle_token_refresh r m)
unfolding handle_token_refresh
handle_token_refresh-IsCoherent r m (same, flights) =
    if-elim IsCoherent m.has_refresh_failed _ _ (λ _. (same, flights))
      (λ fine.
        if-elim IsCoherent m.is_refreshing _ _ (λ _. (same, flights))
          (λ idle. (
            same,
            inr (for_request r, refl, takes_off _ m idle flights, no_error _ (same ∙ fine)),
          )))

on_timer-IsCoherent : (m : Manager) → IsCoherent m → IsCoherent (on_timer m)
unfolding on_timer
on_timer-IsCoherent m (same, flights) =
    if-elim IsCoherent (not m.has_refresh_failed && not m.is_refreshing) _ _
      (λ both.
        let idle : m.is_refreshing ≡ false = ground (arith, both) in
        let fine : m.has_refresh_failed ≡ false = ground (arith, both) in
        (same, inr (proactive, refl, takes_off _ m idle flights, no_error _ (same ∙ fine))))
      (λ _. (same, flights))

clear-IsCoherent : (o : Option ℕ) (m : Manager) → IsCoherent m → IsCoherent (clear o m)
clear-IsCoherent none m c = c
clear-IsCoherent (some h) m c = c

reset_refresh_failure_state-IsCoherent :
    (m : Manager) → IsCoherent m → IsCoherent (reset_refresh_failure_state m)
reset_refresh_failure_state-IsCoherent m (same, inl idle) = (refl, inl idle)
reset_refresh_failure_state-IsCoherent m (same, inr (k, busy, one, _)) =
    (refl, inr (k, busy, one, refl))

-- At every reachable state at most one refresh is in flight, the flag says whether one is, and then no
-- failure is on record.
pub Reachable-IsCoherent :
    {timeouts : Bool} {rs : List ℕ} {m : Manager} → Reachable timeouts rs m → IsCoherent m
unfolding handle_token_refresh on_timer on_success on_failure
Reachable-IsCoherent start = (refl, inl (refl, refl))
Reachable-IsCoherent (asks {m = m} r s) =
    handle_token_refresh-IsCoherent r m (Reachable-IsCoherent s)
Reachable-IsCoherent (succeeds {m = m} before after (for_request r) n e s) =
    let c = Reachable-IsCoherent s in (c.0, inl (refl, (landed m before after _ c e).0))
Reachable-IsCoherent (succeeds {m = m} before after proactive n e s) =
    let c = Reachable-IsCoherent s in (c.0, inl (refl, (landed m before after _ c e).0))
Reachable-IsCoherent (fails {m = m} before after (for_request r) error e s) =
    (refl, inl (refl, (landed m before after _ (Reachable-IsCoherent s) e).0))
Reachable-IsCoherent (fails {m = m} before after proactive error e s) =
    (refl, inl (refl, (landed m before after _ (Reachable-IsCoherent s) e).0))
Reachable-IsCoherent (fires {m = m} before after t on e s) =
    on_timer-IsCoherent (record m { timers = before ++ after }) (Reachable-IsCoherent s)
Reachable-IsCoherent (resets {m = m} s) =
    reset_refresh_failure_state-IsCoherent m (Reachable-IsCoherent s)
Reachable-IsCoherent (starts {m = m} n s) =
    clear-IsCoherent m.proactive_refresh_interval m (Reachable-IsCoherent s)
Reachable-IsCoherent (stops {m = m} s) =
    clear-IsCoherent m.proactive_refresh_interval m (Reachable-IsCoherent s)

abbrev pub is_rejected : Outcome → Bool
is_rejected (rejected r e) = true
is_rejected _ = false

abbrev pub asker : Outcome → ℕ
asker (retried r) = r
asker (rejected r e) = r
asker (threw r e) = r

-- What a processed queue adds to the outcomes, where no error is on record.
never_rejected :
    (o : Option ℕ) (q : List ℕ) (os : List Outcome)
    → o ≡ none
    → all (λ u. not (is_rejected u)) os ≡ true
    → all (λ u. not (is_rejected u)) (map (settled o) q ++ os) ≡ true
never_rejected (some e) q os fine h = cc
never_rejected none [] os fine h = h
never_rejected none (r ∷ q) os fine h = ground (arith, never_rejected none q os refl h)

handle_token_refresh-accepts :
    (r : ℕ) (m : Manager)
    → all (λ o. not (is_rejected o)) m.outcomes ≡ true
    → all (λ o. not (is_rejected o)) (handle_token_refresh r m).outcomes ≡ true
unfolding handle_token_refresh
handle_token_refresh-accepts r m h = ground (arith, h)

on_timer-outcomes : (m : Manager) → (on_timer m).outcomes ≡ m.outcomes
unfolding on_timer
on_timer-outcomes m =
    if-elim (λ (u : Manager). u.outcomes ≡ m.outcomes)
      (not m.has_refresh_failed && not m.is_refreshing) _ _ (λ _. refl) (λ _. refl)

clear-outcomes : (o : Option ℕ) (m : Manager) → (clear o m).outcomes ≡ m.outcomes
clear-outcomes none m = refl
clear-outcomes (some h) m = refl

-- No waiting request is ever rejected, at any reachable state: a failed refresh sends the waiting
-- requests again, since the queue is processed before the failure is put on record.
pub Reachable-never_rejected :
    {timeouts : Bool} {rs : List ℕ} {m : Manager}
    → Reachable timeouts rs m
    → all (λ o. not (is_rejected o)) m.outcomes ≡ true
unfolding on_success on_failure
Reachable-never_rejected start = refl
Reachable-never_rejected (asks {m = m} r s) =
    handle_token_refresh-accepts r m (Reachable-never_rejected s)
Reachable-never_rejected (succeeds {m = m} before after (for_request r) n e s) =
    never_rejected none m.failed_queue m.outcomes refl (Reachable-never_rejected s)
Reachable-never_rejected (succeeds before after proactive n e s) = Reachable-never_rejected s
Reachable-never_rejected (fails {m = m} before after (for_request r) error e s) =
    never_rejected m.last_refresh_error m.failed_queue m.outcomes
      (landed m before after _ (Reachable-IsCoherent s) e).1 (Reachable-never_rejected s)
Reachable-never_rejected (fails before after proactive error e s) = Reachable-never_rejected s
Reachable-never_rejected (fires {m = m} before after t on e s) =
    rw (on_timer-outcomes (record m { timers = before ++ after })) (Reachable-never_rejected s)
Reachable-never_rejected (resets s) = Reachable-never_rejected s
Reachable-never_rejected (starts {m = m} n s) =
    rw (clear-outcomes m.proactive_refresh_interval m) (Reachable-never_rejected s)
Reachable-never_rejected (stops {m = m} s) =
    rw (clear-outcomes m.proactive_refresh_interval m) (Reachable-never_rejected s)
