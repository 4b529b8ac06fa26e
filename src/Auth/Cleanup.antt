-- ===== src/Auth/Cleanup.antt =====
-- The scheduled jobs, apps/auth-service/src/app/modules/auth/services/token-cleanup.service.ts.
pub mod Completeness
use demo_t.Base.{
  ℕ, zero, suc, Bool, true, false, Option, none, some, List, [], ◌∷◌, ◌+◌, ◌-◌, ◌*◌, ◌==◌, ◌&&◌,
  ◌||◌, ltb, if◌then◌else◌,
}
use demo_t.Errors.Exceptions.{Exception, plain, ok, err}
use demo_t.Auth.Rows.{RefreshToken}
use demo_t.Auth.Action.{Action, ◌>>=◌, ◌>>◌, pure, throw, lift, try_catch}
use demo_t.Auth.Backend.{Backend}
use demo_t.Auth.TokenConfig.{refresh_token_days}

abbrev pub batch_size : ℕ
batch_size = 1000

abbrev pub is_expired : ℕ → RefreshToken → Bool
is_expired now t = ltb t.expires_at now

abbrev before : Option ℕ → ℕ → Bool
before none cutoff = false
before (some time) cutoff = ltb time cutoff

abbrev is_null : Option ℕ → Bool
is_null none = true
is_null (some _) = false

abbrev pub day_milliseconds : ℕ
day_milliseconds = 24 * 60 * 60 * 1000

-- `setDate(getDate() - daysOld)`, where no clock change falls between.
abbrev pub cutoff_date : ℕ → ℕ → ℕ
cutoff_date now days_old = now - days_old * day_milliseconds

abbrev pub is_unused : ℕ → ℕ → RefreshToken → Bool
is_unused now cutoff t =
    (before t.last_used_at cutoff || (is_null t.last_used_at && ltb t.created_at cutoff))
    && ltb now t.expires_at

module _ (b : Backend) (now : ℕ) where
  -- The `while (hasMore)` loop with the total so far. Its fuel is the clock's readings, one for each
  -- round; `none` means that they ran out. The pause of 100 ms between rounds changes no state.
  unfoldable pub cleanup_loop : List ℕ → ℕ → Action (Option ℕ)
  cleanup_loop [] total = pure none
  cleanup_loop (time ∷ times) total =
      let rest = cleanup_loop times in
      b.delete_tokens (is_expired time) >>= λ count.
      if count == batch_size then rest (total + count) else pure (some (total + count))

  unfoldable pub cleanup_expired_tokens : List ℕ → Action (Option ℕ)
  cleanup_expired_tokens times = cleanup_loop times 0

  unfoldable pub cleanup_unused_tokens : ℕ → Action ℕ
  cleanup_unused_tokens days_old = b.delete_tokens (is_unused now (cutoff_date now days_old))

  -- The jobs log a failure and end.
  unfoldable pub daily_cleanup : List ℕ → Action (Unit {0})
  daily_cleanup times = try_catch (cleanup_expired_tokens times >>= λ _. pure tt) (λ _. pure tt)

  unfoldable pub weekly_deep_cleanup : List ℕ → Action (Unit {0})
  weekly_deep_cleanup times =
      try_catch
        (cleanup_expired_tokens times >>= λ _.
          cleanup_unused_tokens refresh_token_days >>= λ _. pure tt)
        (λ _. pure tt)
