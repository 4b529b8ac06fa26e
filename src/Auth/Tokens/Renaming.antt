-- ===== src/Auth/Tokens/Renaming.antt =====
-- Giving a row of the token table another id.
use mathlib.Core.Option
use demo_t.Base.{
  String, Bool, true, false, List, [], ◌∷◌, ◌≡◌, ◌≢◌, refl, arith, eq_iff, any, find, change,
  change-absent, Bool-cases, inl, inr,
}
use demo_t.Auth.Rows.{RefreshToken, is_token}
use demo_t.Auth.Backend.{has_unique_ids}

-- A change that keeps the ids.
pub any-change_same :
    (id : String) (p : RefreshToken → Bool) (f : RefreshToken → RefreshToken)
    (ts : List RefreshToken)
    → ((t : RefreshToken) → (f t).id ≡ t.id)
    → any (is_token id) (change p f ts) ≡ any (is_token id) ts
any-change_same id p f [] same = refl
any-change_same id p f (t ∷ ts) same = ground (arith, same t, any-change_same id p f ts same)

pub has_unique_ids-change_same :
    (p : RefreshToken → Bool) (f : RefreshToken → RefreshToken) (ts : List RefreshToken)
    → ((t : RefreshToken) → (f t).id ≡ t.id)
    → has_unique_ids (change p f ts) ≡ has_unique_ids ts
has_unique_ids-change_same p f [] same = refl
has_unique_ids-change_same p f (t ∷ ts) same =
    ground (arith, same t, any-change_same t.id p f ts same, has_unique_ids-change_same p f ts same)

-- A change that gives a new id to the row with an old one.
module _ (id new_id : String) (f : RefreshToken → RefreshToken)
    (renames : (t : RefreshToken) → (f t).id ≡ new_id) where
  any-rename :
      (other : String) (ts : List RefreshToken)
      → other ≢ new_id
      → any (is_token other) ts ≡ false
      → any (is_token other) (change (is_token id) f ts) ≡ false
  any-rename other [] h k = refl
  any-rename other (t ∷ ts) h k =
      ground (arith, renames t, eq_iff (f t).id other, any-rename other ts h)

  pub has_unique_ids-rename :
      (ts : List RefreshToken)
      → any (is_token new_id) ts ≡ false
      → has_unique_ids ts ≡ true
      → has_unique_ids (change (is_token id) f ts) ≡ true
  has_unique_ids-rename [] fresh unique = refl
  has_unique_ids-rename (t ∷ ts) fresh unique = elim (Bool-cases (is_token id t)) [
    | inl here ↦ ground (arith, renames t, eq_iff t.id id, change-absent (is_token id) f ts)
    | inr there ↦ ground (arith, eq_iff t.id new_id, any-rename t.id ts, has_unique_ids-rename ts)
  ]

  pub find-rename :
      (ts : List RefreshToken)
      → any (is_token new_id) ts ≡ false
      → find (is_token new_id) (change (is_token id) f ts) ≡ Option.map f (find (is_token id) ts)
  find-rename [] fresh = refl
  find-rename (t ∷ ts) fresh = ground (arith, renames t, eq_iff (f t).id new_id, find-rename ts)
