-- ===== src/Auth/Backend/InMemory/Sorting.antt =====
-- The sorting of the stored rows by their last use, by insertion.
use demo_t.Base.{ℕ, true, false, not, Option, List, [], ◌∷◌, ◌≡◌, refl, arith, keep, if◌then◌else◌}
use demo_t.Auth.Rows.{RefreshToken}
use demo_t.Auth.Backend.{IsSortedByUse, SameRows, used_before}

-- The rows in the order of their last use, by insertion.
unfoldable pub insert_by_use : RefreshToken → List RefreshToken → List RefreshToken
insert_by_use t [] = t ∷ []
insert_by_use t (u ∷ us) =
    if used_before t.last_used_at u.last_used_at then t ∷ u ∷ us else u ∷ insert_by_use t us

unfoldable pub sort_by_use : List RefreshToken → List RefreshToken
sort_by_use [] = []
sort_by_use (t ∷ ts) = insert_by_use t (sort_by_use ts)

-- How many members of a list with one more in some place pass a test.
insert_by_use-SameRows :
    (t : RefreshToken) (us : List RefreshToken) → SameRows (insert_by_use t us) (t ∷ us)
unfolding insert_by_use
insert_by_use-SameRows t [] p = refl
insert_by_use-SameRows t (u ∷ us) p = ground (arith, insert_by_use-SameRows t us p)

pub sort_by_use-SameRows : (ts : List RefreshToken) → SameRows (sort_by_use ts) ts
unfolding sort_by_use
sort_by_use-SameRows [] p = refl
sort_by_use-SameRows (t ∷ ts) p =
    ground (arith, insert_by_use-SameRows t (sort_by_use ts) p, sort_by_use-SameRows ts p)

used_before_trans :
    (x y z : Option ℕ) → used_before x y ≡ true → used_before y z ≡ true → used_before x z ≡ true
used_before_trans x y z h k = ground arith

used_before_total : (x y : Option ℕ) → used_before x y ≡ false → used_before y x ≡ true
used_before_total x y h = ground arith

-- The rows that are used before `t` would have been: none stands behind it in a sorted list.
late : RefreshToken → List RefreshToken → List RefreshToken
late t = keep (λ u. not (used_before t.last_used_at u.last_used_at))

late_mono :
    (t v : RefreshToken) (us : List RefreshToken)
    → used_before t.last_used_at v.last_used_at ≡ true
    → late v us ≡ []
    → late t us ≡ []
unfolding late
late_mono t v [] h e = refl
late_mono t v (u ∷ us) h e =
    ground
      (arith, used_before_trans t.last_used_at v.last_used_at u.last_used_at, late_mono t v us h)

late-insert_by_use :
    (v t : RefreshToken) (us : List RefreshToken)
    → used_before v.last_used_at t.last_used_at ≡ true
    → late v us ≡ []
    → late v (insert_by_use t us) ≡ []
unfolding late insert_by_use
late-insert_by_use v t [] h e = ground arith
late-insert_by_use v t (u ∷ us) h e = ground (arith, late-insert_by_use v t us h)

insert_by_use-IsSorted :
    (t : RefreshToken) (us : List RefreshToken)
    → IsSortedByUse us
    → IsSortedByUse (insert_by_use t us)
unfolding late insert_by_use
insert_by_use-IsSorted t [] s = (refl, tt)
insert_by_use-IsSorted t (u ∷ us) (first, s) = ground (
  arith,
  late_mono t u us,
  late-insert_by_use u t us,
  used_before_total t.last_used_at u.last_used_at,
  insert_by_use-IsSorted t us s,
)

pub sort_by_use-IsSorted : (ts : List RefreshToken) → IsSortedByUse (sort_by_use ts)
unfolding sort_by_use
sort_by_use-IsSorted [] = tt
sort_by_use-IsSorted (t ∷ ts) = insert_by_use-IsSorted t (sort_by_use ts) (sort_by_use-IsSorted ts)
