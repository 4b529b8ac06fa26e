-- ===== src/Gateway/Verify.antt =====
-- `verifyToken` of apps/server-nest/src/app/modules/auth/auth.service.ts, which keeps verified payloads in
-- Redis, over the auth service's own `verifyToken`. Both use the state's Redis entries, under keys with
-- different prefixes.
pub mod Refinement
use Prim.Native.String
use demo_t.Base.{
  ℕ, String, Bool, true, false, not, Option, none, some, List, [], ◌∷◌, ◌===◌, ◌==◌, ◌&&◌, ◌||◌,
  ◌-◌, ◌/◌, leb, all, codes, if◌then◌else◌,
}
use demo_t.Errors.Exceptions.{Exception, plain, Result}
use demo_t.Auth.Action.{Action, ◌>>=◌, ◌>>◌, pure, throw, lift, try_catch}
use demo_t.Auth.Backend.{Crypto, Backend, Payload}
use demo_t.Auth.Sessions.{Verification, valid, invalid, verify_token}
use demo_t.Gateway.Calls.{error_message_or}

-- Node's SHA-256, JSON, and the `exp` claim that `jwtService.decode` reads, in seconds; `none` is a token
-- that does not decode or has no claim.
pub record Tools : Type 0 where
  pub sha256 : String → String
  pub stringify : Payload → String
  pub parse : String → Option Payload
  pub exp : String → Option ℕ

abbrev pub cache_buffer_seconds : ℕ
cache_buffer_seconds = 3

abbrev pub min_cache_ttl_seconds : ℕ
min_cache_ttl_seconds = 5

abbrev pub redis_key : Tools → String → String
redis_key t token = String.◌++◌ "auth:token:" (t.sha256 token)

-- The characters that `trim` removes.
abbrev is_space : ℕ → Bool
is_space c =
    leb 9 c && leb c 13
    || (c == 32 || (c == 160 || (c == 0x1680 || (leb 0x2000 c && leb c 0x200a))))
    || (c == 0x2028
        || (c == 0x2029 || (c == 0x202f || (c == 0x205f || (c == 0x3000 || c == 0xfeff)))))

unfoldable pub is_blank : String → Bool
is_blank token = all is_space (codes token)

abbrev pub seconds_left : Option ℕ → ℕ → ℕ
seconds_left none now = 0
seconds_left (some exp) now = exp - now / 1000 - cache_buffer_seconds

-- `Math.max(0, exp - now - buffer)`, with the clock in whole seconds; an `exp` of 0 gives 0 too.
abbrev pub calculate_cache_ttl : Tools → String → ℕ → ℕ
calculate_cache_ttl t token now = seconds_left (t.exp token) now

-- `cached ? JSON.parse(cached) : null`; a text that does not parse is ignored.
abbrev pub read_payload : Tools → Option String → Option Payload
read_payload t none = none
read_payload t (some cached) = if cached === "" then none else t.parse cached

module _ (t : Tools) (b : Backend) (now : ℕ) where
  unfoldable pub read_cache : String → Action (Option Payload)
  read_cache token = b.redis_get (redis_key t token) now >>= λ cached. pure (read_payload t cached)

  -- The `catch` logs and ignores the cache.
  unfoldable pub get_cached_token_payload : String → Action (Option Payload)
  get_cached_token_payload token = try_catch (read_cache token) (λ _. pure none)

  unfoldable pub write_cache : String → Payload → Action (Unit {0})
  write_cache token payload =
      if leb (calculate_cache_ttl t token now) min_cache_ttl_seconds
      then pure tt
      else b.redis_setex (redis_key t token) (calculate_cache_ttl t token now) (t.stringify payload)
          now

  -- The `catch` logs and goes on.
  unfoldable pub cache_token_payload : String → Payload → Action (Unit {0})
  cache_token_payload token payload = try_catch (write_cache token payload) (λ _. pure tt)

  -- What the answer of the auth service's `/verify` becomes.
  unfoldable pub accept : String → Verification → Action Payload
  accept token (valid payload) = cache_token_payload token payload >> pure payload
  accept token (invalid e) = throw (plain (error_message_or e "Invalid token"))

-- `network` says whether the connection to the auth service works.
module _ (t : Tools) (c : Crypto) (b : Backend) (network : Result (Unit {0})) (now : ℕ) where
  unfoldable pub verify_token_with_auth_service : String → Action Payload
  verify_token_with_auth_service token =
      lift network >>= λ _. verify_token c b now token >>= λ v. accept t b now token v

  unfoldable pub or_verify : String → Option Payload → Action Payload
  or_verify token (some payload) = pure payload
  or_verify token none = verify_token_with_auth_service token

  unfoldable pub verify_access_token : String → Action Payload
  verify_access_token token =
      if is_blank token
      then throw (plain "Token is required")
      else (get_cached_token_payload t b now token >>= λ cached. or_verify token cached)
