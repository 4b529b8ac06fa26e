-- ===== src/Gateway/Verify/Refinement.antt =====
-- Verification with the cache refines verification without it.
use mathlib.Core.Option
use demo_t.Base.{
  ℕ, String, true, Option, none, some, List, [], ◌∷◌, ◌≡◌, ◌≢◌, refl, subst, ◌⊎◌, inl, inr, ◌===◌,
  ◌+◌, ◌*◌, ◌<◌, leb, ltb, ltb→lt, arith, eq_iff, find, drop_where, Bool-cases, if◌then◌else◌,
}
use demo_t.Errors.Exceptions.{Exception, plain, Result, ok, err}
use demo_t.Auth.Rows.{World, Entry}
use demo_t.Auth.Action.{
  Post, Post-mono, if-Post, seq-Post, try_catch-Post, lift, lift-Post, pure, throw,
}
use demo_t.Auth.Backend.{Crypto, Backend, IsBackend, Payload, live_entry, entry_value}
use demo_t.Auth.Backend.Rules.{redis_get-Post, redis_setex-Post}
use demo_t.Auth.Sessions.{Verification, valid, invalid, verify_token}
use demo_t.Auth.Sessions.Verifying.{IsAnswer, verify_token-IsAnswer}
use demo_t.Gateway.Verify.{
  Tools, redis_key, calculate_cache_ttl, seconds_left, read_payload, read_cache,
  get_cached_token_payload, write_cache, cache_token_payload, accept,
  verify_token_with_auth_service, or_verify, is_blank, verify_access_token, min_cache_ttl_seconds,
}

-- The documented behaviour of the libraries: two tokens do not share a hash; a payload is read back as
-- it was written; and a token without a start date that verifies at one time verifies, with the same
-- payload, at every time before its `exp`.
pub record IsTools (t : Tools) (c : Crypto) : Type 0 where
  pub injective : (x y : String) → redis_key t x ≡ redis_key t y → x ≡ y
  pub reads_back :
      (now : ℕ) (token : String) (p : Payload)
      → c.verify c.jwt_secret now token ≡ ok p
      → t.parse (t.stringify p) ≡ some p
  pub stays :
      (now later : ℕ) (token : String) (p : Payload) (e : ℕ)
      → c.verify c.jwt_secret now token ≡ ok p
      → t.exp token ≡ some e
      → later < e * 1000
      → c.verify c.jwt_secret later token ≡ ok p

-- At any time, a payload in the cache is the one that verifying the token would give.
abbrev pub IsFaithful : Tools → Crypto → List Entry → Type 0
IsFaithful t c es =
    (token : String) (now : ℕ) (p : Payload)
    → read_payload t (entry_value (find (live_entry (redis_key t token) now) es)) ≡ some p
    → c.verify c.jwt_secret now token ≡ ok p

-- Dropping the entries of one key leaves what is found under another, and nothing under its own.
find-drop_key :
    (key other : String) (now : ℕ) (es : List Entry)
    → find (live_entry other now) (drop_where (λ e. e.key === key) es)
      ≡ (if key === other then none else find (live_entry other now) es)
find-drop_key key other now [] = ground arith
find-drop_key key other now (e ∷ es) =
    ground (
      arith,
      eq_iff e.key key,
      eq_iff e.key other,
      eq_iff key other,
      find-drop_key key other now es,
    )

abbrev cached_at : Tools → String → Payload → ℕ → Entry
cached_at t token p now = record {
  key = redis_key t token;
  value = t.stringify p;
  expires_at = now + calculate_cache_ttl t token now * 1000;
}

module _ (t : Tools) (c : Crypto) (T : IsTools t c) where
  -- What is read back is what was written.
  read-stringify :
      (now : ℕ) (token : String) (p q : Payload)
      → c.verify c.jwt_secret now token ≡ ok p
      → read_payload t (some (t.stringify p)) ≡ some q
      → p ≡ q
  read-stringify now token p q v h = elim (Bool-cases (t.stringify p === "")) [
    | inl blank ↦ absurd (Option.none-ne-some q (rw blank at h))
    | inr filled ↦ Option.some-injective p q (rw (filled, T.reads_back now token p v) at h)
  ]

  -- An entry that is still live was written for a token that has not expired.
  live-verifies :
      (now later : ℕ) (token : String) (p : Payload) (o : Option ℕ)
      → t.exp token ≡ o
      → c.verify c.jwt_secret now token ≡ ok p
      → later < now + seconds_left o now * 1000
      → seconds_left o now ≢ 0
      → c.verify c.jwt_secret later token ≡ ok p
  live-verifies now later token p none e v h n = absurd (n refl)
  live-verifies now later token p (some x) e v h n = T.stays now later token p x v e (omega arith)

  -- Writing a payload that verifies keeps the cache faithful.
  cached-IsFaithful :
      (now : ℕ) (token : String) (p : Payload) (es : List Entry)
      → c.verify c.jwt_secret now token ≡ ok p
      → calculate_cache_ttl t token now ≢ 0
      → IsFaithful t c es
      → IsFaithful t c (cached_at t token p now ∷ drop_where (λ e. e.key === redis_key t token) es)
  cached-IsFaithful now token p es v n F other later q h =
      elim (Bool-cases (redis_key t token === redis_key t other)) [
        | inl same ↦
            let tokens =
              T.injective token other ((eq_iff (redis_key t token) (redis_key t other)).0 same) in
            elim (Bool-cases (ltb later (now + calculate_cache_ttl t token now * 1000))) [
              | inl live ↦
                  let read = read-stringify now token p q v (rw (same, live) at h) in
                  subst (λ x. c.verify c.jwt_secret later x ≡ ok q) tokens
                    (subst (λ x. c.verify c.jwt_secret later token ≡ ok x) read
                      (live-verifies now later token p (t.exp token) refl v (ltb→lt _ _ live) n))
              | inr gone ↦ absurd (
                  Option.none-ne-some q (
                    rw
                      (
                        same,
                        gone,
                        find-drop_key (redis_key t token) (redis_key t other) later es,
                        same,
                      )
                      at h))
            ]
        | inr apart ↦
            F other later q (
              rw (apart, find-drop_key (redis_key t token) (redis_key t other) later es, apart) at
                h)
      ]

-- Why a verification may throw: a blank token, no connection, or what the auth service says.
abbrev pub MayThrow : Type 0 → Crypto → Result (Unit {0}) → ℕ → String → World → Type 0
MayThrow Fault c network now token w =
    (is_blank token ≡ true)
    ⊎ ((e : Exception) × (network ≡ err e))
    ⊎ ((e : Exception) × IsAnswer Fault c now token w (invalid e))

module _ {Fault : Type 0} (t : Tools) (c : Crypto) (b : Backend) (T : IsTools t c)
    (L : IsBackend Fault b) (network : Result (Unit {0})) (now : ℕ) (token : String) where
  write_cache-IsFaithful :
      (p : Payload) (w : World)
      → c.verify c.jwt_secret now token ≡ ok p
      → IsFaithful t c w.redis
      → Post
          (λ _ w'. IsFaithful t c w'.redis)
          (λ _ w'. IsFaithful t c w'.redis)
          (write_cache t b now token p w)
  unfolding write_cache
  write_cache-IsFaithful p w v F =
      if-Post (leb (calculate_cache_ttl t token now) min_cache_ttl_seconds) (pure tt) _ w
        (λ short. record { holds = F })
        (λ long.
          redis_setex-Post b L (redis_key t token) (calculate_cache_ttl t token now) (t.stringify p)
            now w (cached-IsFaithful t c T now token p w.redis v (ground arith) F) (λ e f. F))

  accept-IsFaithful :
      (v : Verification) (w : World)
      → IsAnswer Fault c now token w v
      → IsFaithful t c w.redis
      → Post
          (λ p w'. (c.verify c.jwt_secret now token ≡ ok p) × IsFaithful t c w'.redis)
          (λ _ w'. IsFaithful t c w'.redis × MayThrow Fault c network now token w)
          (accept t b now token v w)
  unfolding accept cache_token_payload
  accept-IsFaithful (valid p) w (v, row) F = seq-Post (cache_token_payload t b now token p) (
      try_catch-Post (write_cache t b now token p) (
        Post-mono _ (write_cache-IsFaithful p w v F) (λ _ w' G. record { holds = (v, G) })
          (λ e w' G. record { holds = record { holds = (v, G) } })))
  accept-IsFaithful (invalid e) w a F = record { holds = (F, inr (inr (e, a))) }

  or_verify-IsFaithful :
      (cached : Option Payload) (w : World)
      → ((p : Payload) → cached ≡ some p → c.verify c.jwt_secret now token ≡ ok p)
      → IsFaithful t c w.redis
      → Post
          (λ p w'. (c.verify c.jwt_secret now token ≡ ok p) × IsFaithful t c w'.redis)
          (λ _ w'. IsFaithful t c w'.redis × MayThrow Fault c network now token w)
          (or_verify t c b network now token cached w)
  unfolding or_verify verify_token_with_auth_service
  or_verify-IsFaithful (some p) w known F = record { holds = (known p refl, F) }
  or_verify-IsFaithful none w known F = seq-Post (lift network) (
      lift-Post network w
        (λ _ up. seq-Post (verify_token c b now token) (
          Post-mono _ (verify_token-IsAnswer c b L now token w)
            (λ v w' (same, a). rw same (accept-IsFaithful v w a F)) (λ e w' f. absurd f)))
        (λ e down. (F, inr (inl (e, down)))))

  -- The gateway's verification with its cache gives nothing that the signature check would not: where the
  -- cache is faithful, a payload that it returns is the one that verifying the token at this moment gives;
  -- it throws only for a blank token, a lost connection or what the auth service's own verification calls
  -- invalid; and the cache it leaves is faithful, on every path.
  pub verify_access_token-IsFaithful :
      (w : World)
      → IsFaithful t c w.redis
      → Post
          (λ p w'. (c.verify c.jwt_secret now token ≡ ok p) × IsFaithful t c w'.redis)
          (λ _ w'. IsFaithful t c w'.redis × MayThrow Fault c network now token w)
          (verify_access_token t c b network now token w)
  unfolding verify_access_token get_cached_token_payload read_cache
  verify_access_token-IsFaithful w F =
      if-Post (is_blank token) (throw (plain "Token is required")) _ w
        (λ blank. record { holds = (F, inl blank) })
        (λ there. seq-Post (get_cached_token_payload t b now token) (
          try_catch-Post (read_cache t b now token) (
            seq-Post (b.redis_get (redis_key t token) now) (
              redis_get-Post b L (redis_key t token) now w
                (record { holds = or_verify-IsFaithful _ w (λ p e. F token now p e) F })
                (λ e f. record {
                  holds = or_verify-IsFaithful none w (λ p e'. absurd (Option.none-ne-some p e')) F;
                })))))
