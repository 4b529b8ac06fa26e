-- ===== src/Auth/Tests/Jobs.antt =====
-- The scheduled jobs at a concrete state, and a run of the service.
use demo_t.Base.{ℕ, some, [], ◌∷◌, ◌≡◌, ◌⊎◌, arith}
use demo_t.Auth.Rows.{World}
use demo_t.Auth.Action.{Post}
use demo_t.Auth.Backend.InMemory.{in_memory}
use demo_t.Auth.Backend.InMemory.Lawful.{in_memory-IsBackend}
use demo_t.Auth.Sessions.{sign_in}
use demo_t.Auth.Cleanup.{cleanup_expired_tokens}
use demo_t.Auth.Cleanup.Completeness.{IsSweep, cleanup_expired_tokens-sweeps}
use demo_t.Auth.EmailVerification.{verify_email, register}
use demo_t.Auth.EmailVerification.Decimal.{to_string}
use demo_t.Auth.Ownership.{IsOwned}
use demo_t.Auth.Ownership.Reachable.{
  start, registers, verifies_email, signs_in, empty, after, Reachable, Reachable-IsOwned,
}
use demo_t.Auth.Tests.{phone, shop, toy, dan}

cleanup_expired_tokens-sweeps_example :
    Post
      (λ found w'. (n : ℕ) × (found ≡ some n) × IsSweep 90 shop n w')
      (λ _ w'. ⊥ × ((w' ≡ shop) ⊎ ((n : ℕ) × IsSweep 90 shop n w')))
      (cleanup_expired_tokens in_memory 90 (100 ∷ []) shop)
cleanup_expired_tokens-sweeps_example =
    cleanup_expired_tokens-sweeps in_memory in_memory-IsBackend 90 90 (100 ∷ []) shop
      (omega arith, tt) (omega arith)

-- Dan registers, verifies his email and signs in.
abbrev reached : World
reached = after (sign_in toy in_memory 300 "r1" "dan@shop" "secret" phone) (
    after (verify_email in_memory 200 "v1")
      (after (register toy in_memory to_string 100 "v1" dan) empty))

reached-Reachable : Reachable toy in_memory to_string reached
reached-Reachable =
    signs_in 300 "r1" "dan@shop" "secret" phone
      (verifies_email 200 "v1" (registers 100 "v1" dan start))

Reachable-IsOwned_example : IsOwned reached
Reachable-IsOwned_example = Reachable-IsOwned in_memory-IsBackend reached-Reachable
