-- ===== src/Base/Counting.antt =====
-- How many members a test keeps.
use Prim.Native.Nat.{ℕ, zero, suc, ◌+◌, ◌≤◌}
use mathlib.Core.Path.{◌≡◌, refl, ap}
use mathlib.Core.Bool.{Bool, true, false, not}
use mathlib.Core.List.{List, [], ◌∷◌}
use native.Mathlib.Omega.{arith}
use demo_t.Base.Lists.{length, take, keep, any, all, drop_where}

module _ {ℓ} {A : Type ℓ} where
  pub keep-true : (xs : List A) → keep (λ _. true) xs ≡ xs
  keep-true [] = refl
  keep-true (x ∷ xs) = ap (λ ys. x ∷ ys) (keep-true xs)

  pub length-keep-le : (p : A → Bool) (xs : List A) → length (keep p xs) ≤ length xs
  length-keep-le p [] = omega arith
  length-keep-le p (x ∷ xs) = ground (arith, length-keep-le p xs)

  -- Two tests keep the same members in either order.
  pub keep_comm : (p q : A → Bool) (xs : List A) → keep p (keep q xs) ≡ keep q (keep p xs)
  keep_comm p q [] = refl
  keep_comm p q (x ∷ xs) = ground (arith, keep_comm p q xs)

  pub all_mono :
      (p q : A → Bool) (xs : List A)
      → ((x : A) → p x ≡ true → q x ≡ true)
      → all p xs ≡ true
      → all q xs ≡ true
  all_mono p q [] f h = refl
  all_mono p q (x ∷ xs) f h = ground (arith, f x, all_mono p q xs f)

  -- A test that the first `k` members pass removes at least `k`.
  pub length-drop_where_prefix :
      (p : A → Bool) (k : ℕ) (xs : List A)
      → k ≤ length xs
      → all p (take k xs) ≡ true
      → length (drop_where p xs) + k ≤ length xs
  length-drop_where_prefix p zero xs h a = omega (arith, length-keep-le (λ x. not (p x)) xs)
  length-drop_where_prefix p (suc k) [] h a = absurd (omega arith)
  length-drop_where_prefix p (suc k) (x ∷ xs) h a = ground (arith, length-drop_where_prefix p k xs)

  pub all-keep : (p q : A → Bool) (xs : List A) → all p xs ≡ true → all p (keep q xs) ≡ true
  all-keep p q [] h = refl
  all-keep p q (x ∷ xs) h = ground (arith, all-keep p q xs)

  -- A removed member is found no more.
  pub any-drop_where : (p : A → Bool) (xs : List A) → any p (drop_where p xs) ≡ false
  any-drop_where p [] = refl
  any-drop_where p (x ∷ xs) = ground (arith, any-drop_where p xs)

  pub find_of_any : (p : A → Bool) (xs : List A) → any p xs ≡ false → length (keep p xs) ≡ 0
  find_of_any p [] h = refl
  find_of_any p (x ∷ xs) h = ground (arith, find_of_any p xs)

  -- What is not there is not there among the members kept.
  pub any-keep : (p q : A → Bool) (xs : List A) → any p xs ≡ false → any p (keep q xs) ≡ false
  any-keep p q [] h = refl
  any-keep p q (x ∷ xs) h = ground (arith, any-keep p q xs)
