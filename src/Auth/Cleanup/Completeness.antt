-- ===== src/Auth/Cleanup/Completeness.antt =====
-- The scheduled jobs end, and remove exactly the rows they are for.
use demo_t.Base.{
  ℕ, true, some, List, [], ◌∷◌, ◌≡◌, refl, ap, ◌∙◌, ◌⊎◌, inl, inr, ◌+◌, ◌*◌, ◌<◌, ◌≤◌, ◌==◌, arith,
  keep, length, drop_where, drop_where_mono, length-keep_mono, length-keep-drop_where,
}
use demo_t.Auth.Rows.{RefreshToken, World}
use demo_t.Auth.Action.{◌>>=◌, Post, seq-Post, if-Post, pure, try_catch-Post, Post-mono}
use demo_t.Auth.Backend.{Backend, IsBackend}
use demo_t.Auth.Backend.Rules.{delete_tokens-Post}
use demo_t.Auth.Cleanup.{
  batch_size, is_expired, cleanup_loop, cleanup_expired_tokens, daily_cleanup,
}

-- The state without the tokens expired at a time.
abbrev pub swept : ℕ → World → World
swept time w = record w { tokens = drop_where (is_expired time) w.tokens }

-- The readings of a clock that does not go back.
abbrev pub IsAscending : ℕ → List ℕ → Type 0
IsAscending from [] = Unit
IsAscending from (time ∷ times) = (from ≤ time) × IsAscending time times

-- A sweep at some time after `from`, which removed so many rows.
abbrev pub IsSweep : ℕ → World → ℕ → World → Type 0
IsSweep from w n w' =
    (time : ℕ) × (from ≤ time)
    × (n ≡ length (keep (is_expired time) w.tokens))
    × (w' ≡ swept time w)

expired_later :
    (t s : ℕ) → t ≤ s → (r : RefreshToken) → is_expired t r ≡ true → is_expired s r ≡ true
expired_later t s le r h = ground arith

-- Two sweeps are the later one.
IsSweep-trans :
    (from t : ℕ) (w : World) (n : ℕ) (w' : World)
    → from ≤ t
    → IsSweep t (swept t w) n w'
    → IsSweep from w (length (keep (is_expired t) w.tokens) + n) w'
IsSweep-trans from t w n w' le (s, le', count, same) = (
  s,
  omega arith,
  ap (λ k. length (keep (is_expired t) w.tokens) + k) count
      ∙ length-keep_mono (is_expired t) (is_expired s) w.tokens (expired_later t s le'),
  same
      ∙ ap (λ ts. record w { tokens = ts })
          (drop_where_mono (is_expired t) (is_expired s) w.tokens (expired_later t s le')),
)

module _ {Fault : Type 0} (b : Backend) (L : IsBackend Fault b) (now : ℕ) where
  cleanup_loop-sweeps :
      (from : ℕ) (times : List ℕ) (total : ℕ) (w : World)
      → IsAscending from times
      → length w.tokens < batch_size * length times
      → Post
          (λ found w'. (n : ℕ) × (found ≡ some (total + n)) × IsSweep from w n w')
          (λ _ w'. Fault × ((w' ≡ w) ⊎ ((n : ℕ) × IsSweep from w n w')))
          (cleanup_loop b now times total w)
  unfolding cleanup_loop
  cleanup_loop-sweeps from [] total w asc enough = absurd (omega arith)
  cleanup_loop-sweeps from (t ∷ ts) total w (le, asc) enough =
      seq-Post (b.delete_tokens (is_expired t)) (
        delete_tokens-Post b L (is_expired t) w
          (if-Post (length (keep (is_expired t) w.tokens) == batch_size) _ _ (swept t w)
            (λ full.
              Post-mono (cleanup_loop b now ts _ (swept t w))
                (cleanup_loop-sweeps t ts _ (swept t w) asc (fewer full))
                (λ found w' (n, e, sweep). (
                  length (keep (is_expired t) w.tokens) + n,
                  e ∙ ap some (omega arith),
                  IsSweep-trans from t w n w' le sweep,
                ))
                (λ _ w' (f, state). (f, inr (later w' state))))
            (λ _. record { holds = (_, refl, (t, le, refl, refl)) }))
          (λ _ f. (f, inl refl)))
    where
      fewer :
          length (keep (is_expired t) w.tokens) == batch_size ≡ true
          → length (swept t w).tokens < batch_size * length ts
      fewer full = ground (arith, length-keep-drop_where (is_expired t) w.tokens)

      later :
          (w' : World)
          → (w' ≡ swept t w) ⊎ ((n : ℕ) × IsSweep t (swept t w) n w')
          → (n : ℕ) × IsSweep from w n w'
      later w' (inl same) = (_, (t, le, refl, same))
      later w' (inr (n, sweep)) = (_, IsSweep-trans from t w n w' le sweep)

  -- With a clock that does not go back, read once more often than there are full batches of tokens, the
  -- clean-up ends: its report is the number of tokens expired at some reading, and exactly those are
  -- gone. If a server fails, nothing is gone, or again the tokens expired at some time.
  pub cleanup_expired_tokens-sweeps :
      (from : ℕ) (times : List ℕ) (w : World)
      → IsAscending from times
      → length w.tokens < batch_size * length times
      → Post
          (λ found w'. (n : ℕ) × (found ≡ some n) × IsSweep from w n w')
          (λ _ w'. Fault × ((w' ≡ w) ⊎ ((n : ℕ) × IsSweep from w n w')))
          (cleanup_expired_tokens b now times w)
  unfolding cleanup_expired_tokens
  cleanup_expired_tokens-sweeps from times w asc enough =
      Post-mono (cleanup_loop b now times 0 w) (cleanup_loop-sweeps from times 0 w asc enough)
        (λ found w' (n, e, sweep). (n, e ∙ ap some (omega arith), sweep)) (λ _ _ h. h)

  -- The nightly job never throws, and sweeps the expired tokens unless a server fails before that.
  pub daily_cleanup-sweeps :
      (from : ℕ) (times : List ℕ) (w : World)
      → IsAscending from times
      → length w.tokens < batch_size * length times
      → Post
          (λ _ w'. ((n : ℕ) × IsSweep from w n w') ⊎ (Fault × (w' ≡ w)))
          (λ _ _. ⊥)
          (daily_cleanup b now times w)
  unfolding daily_cleanup
  daily_cleanup-sweeps from times w asc enough =
      try_catch-Post (cleanup_expired_tokens b now times >>= λ _. pure tt) (
        seq-Post (cleanup_expired_tokens b now times) (
          Post-mono (cleanup_expired_tokens b now times w)
            (cleanup_expired_tokens-sweeps from times w asc enough)
            (λ _ w' (n, _, sweep). record { holds = inl (n, sweep) })
            (λ _ w' (f, state). record { holds = left_by f w' state })))
    where
      left_by :
          Fault
          → (w' : World) → (w' ≡ w) ⊎ ((n : ℕ) × IsSweep from w n w')
          → ((n : ℕ) × IsSweep from w n w') ⊎ (Fault × (w' ≡ w))
      left_by f w' (inl same) = inr (f, same)
      left_by f w' (inr sweep) = inl sweep
