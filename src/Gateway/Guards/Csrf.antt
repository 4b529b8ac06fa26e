-- ===== src/Gateway/Guards/Csrf.antt =====
-- What the CSRF guard lets through.
use Prim.Native.Nat.{bit_or, bit_xor, bit_or-bitwise, bit_xor-bitwise, differ, digits, max}
use mathlib.Core.List.{cons-ne-nil}
use demo_t.Base.{
  ℕ, zero, suc, Bool, true, false, Option, none, some, List, [], ◌∷◌, ◌≡◌, ◌≢◌, refl, sym, ap, ◌∙◌,
  subst, ◌⊎◌, inl, inr, ◌↔◌, ◌==◌, ◌/◌, ◌%◌, ◌≤◌, arith, length, Bool-cases,
}
use demo_t.Errors.Exceptions.{ok}
use demo_t.Gateway.Guards.{
  Request, mismatch, timing_safe_equal, check_csrf, csrf_guard, is_read_only, to_upper_case,
  max_token_length,
}

differ_zero : (x y : ℕ) → differ x y ≡ 0 → x ≡ y
differ_zero zero y h = sym h
differ_zero (suc x) zero h = absurd (omega arith)
differ_zero (suc x) (suc y) h = ap suc (differ_zero x y h)

differ_self : (x : ℕ) → differ x x ≡ 0
differ_self zero = refl
differ_self (suc x) = differ_self x

digits-differ_zero : (fuel a b : ℕ) → a ≤ fuel → digits (λ y. y) differ fuel a b ≡ 0 → a ≡ b
digits-differ_zero zero a b h e = omega arith
digits-differ_zero (suc fuel) zero b h e = sym e
digits-differ_zero (suc fuel) (suc a) b h e =
    let high = digits-differ_zero fuel (suc a / 2) (b / 2) (omega arith) (omega arith) in
    let low = differ_zero (suc a % 2) (b % 2) (omega arith) in omega (arith, high, low)

digits-differ_self : (fuel a : ℕ) → a ≤ fuel → digits (λ y. y) differ fuel a a ≡ 0
digits-differ_self zero a h = omega arith
digits-differ_self (suc fuel) zero h = refl
digits-differ_self (suc fuel) (suc a) h =
    omega (arith, digits-differ_self fuel (suc a / 2) (omega arith), differ_self (suc a % 2))

digits-max_zero : (fuel a b : ℕ) → a ≤ fuel → digits (λ y. y) max fuel a b ≡ 0 → (a ≡ 0) × (b ≡ 0)
digits-max_zero zero a b h e = (omega arith, e)
digits-max_zero (suc fuel) zero b h e = (refl, e)
digits-max_zero (suc fuel) (suc a) b h e =
    let high = digits-max_zero fuel (suc a / 2) (b / 2) (omega arith) (omega arith) in
    absurd (omega (arith, high.0, high.1))

bit_xor_zero : (a b : ℕ) → bit_xor a b ≡ 0 → a ≡ b
bit_xor_zero a b e = digits-differ_zero a a b (omega arith) (sym (bit_xor-bitwise a b) ∙ e)

bit_xor_self : (a : ℕ) → bit_xor a a ≡ 0
bit_xor_self a = bit_xor-bitwise a a ∙ digits-differ_self a a (omega arith)

bit_or_zero : (a b : ℕ) → bit_or a b ≡ 0 → (a ≡ 0) × (b ≡ 0)
bit_or_zero a b e = digits-max_zero a a b (omega arith) (sym (bit_or-bitwise a b) ∙ e)

-- The loop ends with 0 only if it began with 0 and met no difference.
mismatch_zero :
    (result : ℕ) (a b : List ℕ)
    → length a ≡ length b
    → mismatch result a b ≡ 0
    → (result ≡ 0) × (a ≡ b)
unfolding mismatch
mismatch_zero result [] [] n e = (e, refl)
mismatch_zero result [] (d ∷ b) n e = absurd (omega arith)
mismatch_zero result (c ∷ a) [] n e = absurd (omega arith)
mismatch_zero result (c ∷ a) (d ∷ b) n e =
    let (now, rest) = mismatch_zero (bit_or result (bit_xor c d)) a b (omega arith) e in
    let (before, here) = bit_or_zero result (bit_xor c d) now in
    (before, λ i. bit_xor_zero c d here i ∷ rest i)

mismatch_self : (result : ℕ) (a : List ℕ) → result ≡ 0 → mismatch result a a ≡ 0
unfolding mismatch
mismatch_self result [] e = e
mismatch_self result (c ∷ a) e =
    mismatch_self (bit_or result (bit_xor c c)) a (rw (e, bit_xor_self c) (bit_or-bitwise 0 0))

-- The comparison accepts exactly a text and itself, of at most 64 code units.
pub timing_safe_equal_iff :
    (a b : List ℕ) → (timing_safe_equal a b ≡ true) ↔ ((a ≡ b) × (length a ≤ max_token_length))
unfolding timing_safe_equal
timing_safe_equal_iff a b = (to, from)
  where
    to : timing_safe_equal a b ≡ true → (a ≡ b) × (length a ≤ max_token_length)
    to h = elim (Bool-cases (mismatch 0 a b == 0)) [
      | inl same ↦ ((mismatch_zero 0 a b (ground arith) (ground arith)).1, ground arith)
      | inr differs ↦ absurd (ground arith)
    ]

    from : (a ≡ b) × (length a ≤ max_token_length) → timing_safe_equal a b ≡ true
    from (same, short) =
        subst (λ x. timing_safe_equal a x ≡ true) same (ground (arith, mismatch_self 0 a refl))

-- The same token, not empty and not too long, as a cookie and as a header.
abbrev pub Agree : Option (List ℕ) → Option (List ℕ) → Type 0
Agree cookie header =
    (token : List ℕ) × (cookie ≡ some token)
    × (header ≡ some token)
    × (token ≢ [])
    × (length token ≤ max_token_length)

-- What the guard asks of a request that it lets through.
abbrev pub MayPass : Bool → Request → Type 0
MayPass skip request =
    (skip ≡ true)
    ⊎ (is_read_only (to_upper_case request.method) ≡ true)
    ⊎ Agree request.csrf_cookie request.csrf_header

check_csrf-Agree :
    (cookie header : Option (List ℕ)) → check_csrf cookie header ≡ ok tt → Agree cookie header
unfolding check_csrf
check_csrf-Agree (some (c ∷ cookie)) (some (d ∷ header)) h =
    elim (Bool-cases (timing_safe_equal (c ∷ cookie) (d ∷ header))) [
      | inl same ↦
          let (equal, short) = (timing_safe_equal_iff (c ∷ cookie) (d ∷ header)).0 same in
          (c ∷ cookie, refl, ap some (sym equal), cons-ne-nil c cookie, short)
      | inr differs ↦ cc
    ]
check_csrf-Agree none header h = cc
check_csrf-Agree (some []) header h = cc
check_csrf-Agree (some (c ∷ cookie)) none h = cc
check_csrf-Agree (some (c ∷ cookie)) (some []) h = cc

Agree-check_csrf :
    (cookie header : Option (List ℕ)) → Agree cookie header → check_csrf cookie header ≡ ok tt
unfolding check_csrf
Agree-check_csrf cookie header ([], e, f, filled, short) = absurd (filled refl)
Agree-check_csrf cookie header (c ∷ token, e, f, filled, short) =
    rw (e, f, (timing_safe_equal_iff (c ∷ token) (c ∷ token)).1 (refl, short)) refl

-- The guard lets a request through exactly if its handler skips the guard, its method is a reading one,
-- or it carries the same token, not empty and of at most 64 code units, as a cookie and as a header.
pub csrf_guard_iff :
    (skip : Bool) (request : Request) → (csrf_guard skip request ≡ ok tt) ↔ MayPass skip request
unfolding csrf_guard
csrf_guard_iff true request = (λ _. inl refl, λ _. refl)
csrf_guard_iff false request = elim (Bool-cases (is_read_only (to_upper_case request.method))) [
  | inl reads ↦ (λ _. inr (inl reads), λ _. rw reads refl)
  | inr writes ↦ (
    λ h. inr (inr (check_csrf-Agree request.csrf_cookie request.csrf_header (rw writes at h))),
    λ h. rw writes (Agree-check_csrf request.csrf_cookie request.csrf_header (agrees writes h)),
  )
]
  where
    agrees :
        is_read_only (to_upper_case request.method) ≡ false
        → MayPass false request
        → Agree request.csrf_cookie request.csrf_header
    agrees writes (inl skips) = cc
    agrees writes (inr (inl reads)) = cc
    agrees writes (inr (inr a)) = a
