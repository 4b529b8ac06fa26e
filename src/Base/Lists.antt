-- ===== src/Base/Lists.antt =====
-- Lists filtered, searched and measured by Boolean tests and native numbers.
use Prim.Native.Nat.{ℕ, zero, suc, ◌+◌, ◌≤◌}
use mathlib.Core.Path.{◌≡◌, refl, sym, subst}
use mathlib.Core.Logic.{inl, inr}
use mathlib.Core.Bool.{Bool, true, false, not, ◌&&◌, ◌||◌}
use mathlib.Core.Option
use mathlib.Core.Option.{Option, none, some}
use mathlib.Core.List.{List, [], ◌∷◌, ◌++◌}
use native.Mathlib.Omega.{arith}
use demo_t.Base.Tests.{if◌then◌else◌, Bool-cases}

module _ {ℓ} {A : Type ℓ} where
  abbrev pub length : List A → ℕ
  length [] = 0
  length (x ∷ xs) = suc (length xs)

  abbrev pub take : ℕ → List A → List A
  take zero xs = []
  take (suc n) [] = []
  take (suc n) (x ∷ xs) = x ∷ take n xs

  abbrev pub drop : ℕ → List A → List A
  drop zero xs = xs
  drop (suc n) [] = []
  drop (suc n) (x ∷ xs) = drop n xs

  abbrev pub keep : (A → Bool) → List A → List A
  keep p [] = []
  keep p (x ∷ xs) = if p x then x ∷ keep p xs else keep p xs

  abbrev pub find : (A → Bool) → List A → Option A
  find p [] = none
  find p (x ∷ xs) = if p x then some x else find p xs

  abbrev pub any : (A → Bool) → List A → Bool
  any p [] = false
  any p (x ∷ xs) = p x || any p xs

  abbrev pub all : (A → Bool) → List A → Bool
  all p [] = true
  all p (x ∷ xs) = p x && all p xs

  -- The members that a test finds, each replaced by its image.
  abbrev pub change : (A → Bool) → (A → A) → List A → List A
  change p f [] = []
  change p f (x ∷ xs) = (if p x then f x else x) ∷ change p f xs

  -- The members that a test rejects.
  abbrev pub drop_where : (A → Bool) → List A → List A
  drop_where p = keep (λ x. not (p x))

  pub length-append : (xs ys : List A) → length (xs ++ ys) ≡ length xs + length ys
  length-append [] ys = omega arith
  length-append (x ∷ xs) ys = omega (arith, length-append xs ys)

  pub length-take : (n : ℕ) (xs : List A) → n ≤ length xs → length (take n xs) ≡ n
  length-take zero xs h = refl
  length-take (suc n) [] h = elim h [ ]
  length-take (suc n) (x ∷ xs) h = omega (arith, length-take n xs)

  -- Each row is kept or removed.
  pub length-keep-drop_where :
      (p : A → Bool) (xs : List A) → length (keep p xs) + length (drop_where p xs) ≡ length xs
  length-keep-drop_where p [] = omega arith
  length-keep-drop_where p (x ∷ xs) = ground (arith, length-keep-drop_where p xs)

  -- Looking for a row that was changed is changing the row that was found.
  pub find-change :
      (p : A → Bool) (f : A → A) (xs : List A)
      → ((x : A) → p (f x) ≡ p x)
      → find p (change p f xs) ≡ Option.map f (find p xs)
  find-change p f [] same = refl
  find-change p f (x ∷ xs) same = ground (arith, same x, find-change p f xs same)

  -- A member that is found is there for every test that it passes.
  pub any_of_find :
      (p q : A → Bool) (xs : List A) (x : A) → find p xs ≡ some x → q x ≡ true → any q xs ≡ true
  any_of_find p q [] x h k = cc
  any_of_find p q (y ∷ xs) x h k = elim (Bool-cases (p y)) [
    | inl here ↦
        let passes = subst (λ z. q z ≡ true) (sym (Option.some-injective y x (rw here at h))) k in
        ground (arith, passes)
    | inr there ↦ ground (arith, any_of_find p q xs x (rw there at h) k)
  ]

  -- Removing fewer members first makes no difference, and the two removals add up.
  pub drop_where_mono :
      (p q : A → Bool) (xs : List A)
      → ((x : A) → p x ≡ true → q x ≡ true)
      → drop_where q (drop_where p xs) ≡ drop_where q xs
  drop_where_mono p q [] f = refl
  drop_where_mono p q (x ∷ xs) f = ground (arith, f x, drop_where_mono p q xs f)

  pub length-keep_mono :
      (p q : A → Bool) (xs : List A)
      → ((x : A) → p x ≡ true → q x ≡ true)
      → length (keep p xs) + length (keep q (drop_where p xs)) ≡ length (keep q xs)
  length-keep_mono p q [] f = omega arith
  length-keep_mono p q (x ∷ xs) f = ground (arith, f x, length-keep_mono p q xs f)

  pub any_of_none : (p : A → Bool) (xs : List A) → find p xs ≡ none → any p xs ≡ false
  any_of_none p [] h = refl
  any_of_none p (x ∷ xs) h = ground (arith, any_of_none p xs)

  pub any_of_some : (p : A → Bool) (xs : List A) (x : A) → find p xs ≡ some x → any p xs ≡ true
  any_of_some p [] x h = cc
  any_of_some p (y ∷ xs) x h = ground (arith, any_of_some p xs x)

  -- Where no member passes, nothing is changed.
  pub change-absent :
      (p : A → Bool) (f : A → A) (xs : List A) → any p xs ≡ false → change p f xs ≡ xs
  change-absent p f [] h = refl
  change-absent p f (x ∷ xs) h = ground (arith, change-absent p f xs)
