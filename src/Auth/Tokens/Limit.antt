-- ===== src/Auth/Tokens/Limit.antt =====
-- The limit on the refresh tokens of one user.
use demo_t.Base.{
  ℕ, String, Bool, true, not, List, [], ◌∷◌, ◌≡◌, refl, subst, ◌+◌, ◌-◌, ◌≤◌, arith, leb, length,
  take, keep, all, drop_where, keep-true, keep_comm, all_mono, length-drop_where_prefix,
  length-keep-le, Bool-cases, inl, inr, eq_iff,
}
use demo_t.Errors.Exceptions.{Exception}
use demo_t.Auth.Rows.{RefreshToken, World, User, DeviceInfo}
use demo_t.Auth.Action.{Post, seq-Post, lift-Post, lift, Post-mono, Post-any}
use demo_t.Auth.Backend.{Backend, IsBackend, Crypto, SameRows}
use demo_t.Auth.Backend.Rules.{find_tokens_by_use-Post, delete_tokens-Post, create_token-Post}
use demo_t.Auth.TokenConfig.{max_refresh_tokens_per_user}
use demo_t.Auth.Tokens.{
  is_active_token_of, is_one_of, tokens_to_remove, bulk_delete_tokens, enforce_token_limit,
  cleanup_existing_device_token, generate_token_pair, sign_access, sign_refresh, new_token,
}

all-is_one_of : (ts : List RefreshToken) → all (is_one_of ts) ts ≡ true
all-is_one_of [] = refl
all-is_one_of (t ∷ ts) = ground (
  arith,
  eq_iff t.id t.id,
  all_mono (is_one_of ts) (is_one_of (t ∷ ts)) ts (λ u h. ground arith) (all-is_one_of ts),
)

-- The first rows of a list are among them.
all-is_one_of-take :
    (k : ℕ) (ts : List RefreshToken) → all (is_one_of (take k ts)) (take k ts) ≡ true
all-is_one_of-take k ts = all-is_one_of (take k ts)

left_over :
    (ts : List RefreshToken)
    → length (drop_where (is_one_of (tokens_to_remove ts)) ts) + 1 ≤ max_refresh_tokens_per_user
left_over ts = elim (Bool-cases (leb max_refresh_tokens_per_user (length ts))) [
  | inl full ↦ rw full (
      ground (
        arith,
        length-drop_where_prefix (is_one_of (take (length ts - 5 + 1) ts)) (length ts - 5 + 1) ts,
        all-is_one_of-take (length ts - 5 + 1) ts,
      ))
  | inr room ↦ rw room (ground (arith, length-keep-le (λ t. not (is_one_of [] t)) ts))
]

-- What is left of the active rows once the rows to remove are gone.
remaining :
    (p : RefreshToken → Bool) (ts rows : List RefreshToken)
    → SameRows ts (keep p rows)
    → length (keep p (drop_where (is_one_of (tokens_to_remove ts)) rows)) + 1
      ≤ max_refresh_tokens_per_user
remaining p ts rows same =
    rw (keep_comm p (λ t. not (is_one_of (tokens_to_remove ts) t)) rows)
      (rw (← same (λ t. not (is_one_of (tokens_to_remove ts) t))) (left_over ts))

-- The user has room for one more active token.
abbrev pub HasRoom : ℕ → ℕ → World → Type 0
HasRoom user_id now w =
    length (keep (is_active_token_of user_id now) w.tokens) + 1 ≤ max_refresh_tokens_per_user

module _ {Fault : Type 0} (b : Backend) (L : IsBackend Fault b) where
  -- Deleting in bulk removes the rows with one of the ids, or throws and removes nothing.
  pub bulk_delete_tokens-Post :
      (c : Crypto) (now : ℕ) {Q : ℕ → World → Type 0} {E : Exception → World → Type 0}
      (ts : List RefreshToken) (w : World)
      → ((n : ℕ) → Q n (record w { tokens = drop_where (is_one_of ts) w.tokens }))
      → ((e : Exception) → Fault → E e w)
      → Post Q E (bulk_delete_tokens c b now ts w)
  unfolding bulk_delete_tokens
  bulk_delete_tokens-Post c now {Q} [] w q e = record {
    holds = subst (λ ts. Q 0 (record w { tokens = ts })) (keep-true w.tokens) (q 0);
  }
  bulk_delete_tokens-Post c now (t ∷ ts) w q e =
      delete_tokens-Post b L (is_one_of (t ∷ ts)) w (q _) e

  -- Enforcing the limit, if it returns, leaves the user room for one more active token, however many
  -- active tokens there were.
  pub enforce_token_limit-HasRoom :
      (c : Crypto) (now user_id : ℕ) (w : World)
      → Post
          (λ _ w'. HasRoom user_id now w')
          (λ _ _. Unit {0})
          (enforce_token_limit c b now user_id w)
  unfolding enforce_token_limit
  enforce_token_limit-HasRoom c now user_id w =
      seq-Post (b.find_tokens_by_use (is_active_token_of user_id now)) (
        find_tokens_by_use-Post b L (is_active_token_of user_id now) w
          (λ ts same sorted. seq-Post (bulk_delete_tokens c b now (tokens_to_remove ts)) (
            bulk_delete_tokens-Post c now (tokens_to_remove ts) w
              (λ n. record { holds = remaining (is_active_token_of user_id now) ts w.tokens same })
              (λ e _. tt)))
          (λ e _. tt))

  -- A new pair of tokens leaves its user with at most the allowed number of active ones.
  pub generate_token_pair-limit :
      (c : Crypto) (now : ℕ) (token_id : String) (user : User) (device : DeviceInfo) (w : World)
      → Post
          (λ _ w'.
            length (keep (is_active_token_of user.id now) w'.tokens) ≤ max_refresh_tokens_per_user)
          (λ _ _. Unit {0})
          (generate_token_pair c b now token_id user device w)
  unfolding generate_token_pair
  generate_token_pair-limit c now token_id user device w =
      seq-Post (cleanup_existing_device_token c b now user.id device) (
        Post-any (cleanup_existing_device_token c b now user.id device w)
          (λ _ w₁. seq-Post (enforce_token_limit c b now user.id) (
            Post-mono (enforce_token_limit c b now user.id w₁)
              (enforce_token_limit-HasRoom c now user.id w₁)
              (λ _ w₂ room. seq-Post (sign_access c b now user) (
                lift-Post _ w₂
                  (λ access_token _. seq-Post (sign_refresh c b now user token_id) (
                    lift-Post _ w₂
                      (λ refresh_token _. seq-Post (lift (c.hash refresh_token 10)) (
                        lift-Post _ w₂
                          (λ hashed _.
                            seq-Post (b.create_token (new_token now token_id user.id hashed device))
                              (create_token-Post b L (new_token now token_id user.id hashed device)
                                w₂ (λ _ _. record { holds = ground (arith, room) }) (λ e _. tt)))
                          (λ _ _. tt)))
                      (λ _ _. tt)))
                  (λ _ _. tt)))
              (λ _ _ _. tt)))
          (λ _ _. tt))
