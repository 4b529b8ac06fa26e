-- ===== src/Auth/Backend/InMemory/Lawful.antt =====
-- The lists of the backend in memory meet the documented behaviour.
use demo_t.Base.{
  ℕ, String, Bool, true, false, Option, none, some, List, [], ◌∷◌, ◌≡◌, ◌≢◌, refl, ◌⊎◌, inl, inr,
  ◌≤◌, arith, keep, find, any, change, drop_where, is_some, if◌then◌else◌, Bool-cases, Option-cases,
}
use demo_t.Errors.Exceptions.{Exception, Result, ok, err}
use demo_t.Auth.Rows.{
  User, RefreshToken, World, UserKey, by_id, by_id_active, by_email, missing_id, matches, is_user,
  is_token,
}
use demo_t.Auth.Action.{Action, Post}
use demo_t.Auth.Backend.{
  IsBackend, FindFault, UserData, Serves, Refuses, new_user, touched, orphaned_by, has_unique_ids,
  has_unique_emails,
}
use demo_t.Auth.Backend.InMemory.{
  above, find_user, create_user, finish_update, delete_user, create_token, update_token,
  delete_token, undo, in_memory,
}
use demo_t.Auth.Backend.InMemory.Sorting.{sort_by_use-SameRows, sort_by_use-IsSorted}

above-id : (us : List User) (n : ℕ) → above us ≤ n → find (is_user n) us ≡ none
unfolding above
above-id [] n h = refl
above-id (u ∷ us) n h = ground (arith, above-id us n)

-- A branch that serves, or else throws for a reason that the test gives.
branch-Post :
    {A : Type 0} {Q : A → World → Type 0} {reason : Type 0} (t : Bool) (x : Result A × World)
    (e : Exception) (w : World)
    → (t ≡ true → Post Q (Refuses reason w) x)
    → (t ≡ false → reason)
    → Post Q (Refuses reason w) (if t then x else (err e, w))
branch-Post true x e w f g = f refl
branch-Post false x e w f g = record { holds = (refl, g refl) }

finds :
    (k : UserKey) (w : World)
    → Serves (FindFault ⊥ k) (find (matches k) w.users) w w (find_user k w)
unfolding find_user
finds missing_id w = record { holds = (refl, tt) }
finds (by_id id) w = record { holds = (refl, refl) }
finds (by_id_active id) w = record { holds = (refl, refl) }
finds (by_email email) w = record { holds = (refl, refl) }

creates :
    (fields : UserData) (now : ℕ) (w : World)
    → Post
        (λ u w'.
          (u ≡ new_user u.id now fields)
          × (find (is_user u.id) w.users ≡ none)
          × (find (matches (by_email fields.email)) w.users ≡ none)
          × (w' ≡ record w { users = u ∷ w.users }))
        (Refuses (⊥ ⊎ (find (matches (by_email fields.email)) w.users ≢ none)) w)
        (create_user fields now w)
unfolding create_user
creates fields now w = elim (Option-cases (find (matches (by_email fields.email)) w.users)) [
  | inl free ↦
      rw free
        (record { holds = (refl, above-id w.users (above w.users) (omega arith), refl, refl) })
  | inr (u, taken) ↦ rw taken (record { holds = (refl, inr (λ e. cc)) })
]

finishes :
    (id : ℕ) (users : List User) (w : World) (found : Option User)
    → find (is_user id) users ≡ found
    → Post
        (λ u w'. (find (is_user id) w'.users ≡ some u) × (w' ≡ record w { users = users }))
        (Refuses (⊥ ⊎ (find (is_user id) users ≡ none) ⊎ (has_unique_emails users ≡ false)) w)
        (finish_update found users w)
unfolding finish_update
finishes id users w none e = record { holds = (refl, inr (inl e)) }
finishes id users w (some u) e =
    branch-Post (has_unique_emails users) _ _ w (λ _. record { holds = (e, refl) })
      (λ h. inr (inr h))

deletes :
    (id : ℕ) (w : World)
    → Serves
        (⊥ ⊎ (find (is_user id) w.users ≡ none))
        tt
        (record w {
          users = drop_where (is_user id) w.users;
          tokens = drop_where (orphaned_by (is_user id) w.users) w.tokens;
        })
        w
        (delete_user id w)
unfolding delete_user
deletes id w =
    branch-Post (is_some (find (is_user id) w.users)) _ _ w (λ _. record { holds = (refl, refl) })
      (λ h. inr (missing (find (is_user id) w.users) h))
  where
    missing : (o : Option User) → is_some o ≡ false → o ≡ none
    missing none h = refl
    missing (some u) h = cc

creates_t :
    (t : RefreshToken) (w : World)
    → Post
        (λ _ w'.
          (any (is_token t.id) w.tokens ≡ false)
          × (any (is_user t.user_id) w.users ≡ true)
          × (w' ≡ record w { tokens = t ∷ w.tokens }))
        (Refuses
          (⊥ ⊎ (any (is_token t.id) w.tokens ≡ true) ⊎ (any (is_user t.user_id) w.users ≡ false))
          w)
        (create_token t w)
unfolding create_token
creates_t t w = elim (Bool-cases (any (is_token t.id) w.tokens)) [
  | inl taken ↦ rw taken (record { holds = (refl, inr (inl refl)) })
  | inr free ↦ rw free (
      branch-Post (any (is_user t.user_id) w.users) _ _ w
        (λ owner. record { holds = (refl, owner, refl) }) (λ h. inr (inr h)))
]

updates_t :
    (id : String) (f : RefreshToken → RefreshToken) (w : World)
    → Serves
        (⊥
          ⊎ (any (is_token id) w.tokens ≡ false)
          ⊎ (has_unique_ids (change (is_token id) f w.tokens) ≡ false))
        tt
        (record w { tokens = change (is_token id) f w.tokens })
        w
        (update_token id f w)
unfolding update_token
updates_t id f w =
    branch-Post (any (is_token id) w.tokens) _ _ w
      (λ _.
        branch-Post (has_unique_ids (change (is_token id) f w.tokens)) _ _ w
          (λ _. record { holds = (refl, refl) }) (λ h. inr (inr h)))
      (λ h. inr (inl h))

deletes_t :
    (id : String) (w : World)
    → Serves
        (⊥ ⊎ (any (is_token id) w.tokens ≡ false))
        tt
        (record w { tokens = drop_where (is_token id) w.tokens })
        w
        (delete_token id w)
unfolding delete_token
deletes_t id w =
    branch-Post (any (is_token id) w.tokens) _ _ w (λ _. record { holds = (refl, refl) })
      (λ h. inr h)

undoes :
    (m : Action User) (w : World) (x : Result User × World)
    → m w ≡ x
    → ((u : User) × (w' : World) × (m w ≡ (ok u, w')) × (undo w x ≡ (ok u, w')))
      ⊎ ((e : Exception) × (undo w x ≡ (err e, w))
          × (⊥ ⊎ ((e' : Exception) × (w' : World) × (m w ≡ (err e', w')))))
unfolding undo
undoes m w (ok u, w') e = inl (u, w', e, refl)
undoes m w (err x, w') e = inr (x, refl, inr (x, w', e))

-- The lists behave as documented, and never fail.
pub in_memory-IsBackend : IsBackend ⊥ in_memory
unfolding in_memory
in_memory-IsBackend = record {
  finds_user = finds;
  refuses_missing_id = λ w. record { holds = refl };
  creates_user = creates;
  updates_user = λ id f now w. finishes id (change (is_user id) (touched f now) w.users) w _ refl;
  deletes_user = deletes;
  deletes_users = λ p w. record { holds = (refl, refl) };
  finds_token = λ id w. record { holds = (refl, refl) };
  finds_tokens = λ p w. record { holds = (λ q. refl, refl) };
  finds_tokens_by_use = λ p w. record {
    holds = (sort_by_use-SameRows (keep p w.tokens), sort_by_use-IsSorted (keep p w.tokens), refl);
  };
  creates_token = creates_t;
  updates_token = updates_t;
  deletes_token = deletes_t;
  deletes_tokens = λ p w. record { holds = (refl, refl) };
  transacts = λ m w. undoes m w (m w) refl;
  gets = λ key now w. record { holds = (refl, refl) };
  setexes = λ key seconds value now w. record { holds = (refl, refl) };
  dels = λ key w. record { holds = (refl, refl) };
  emits = λ event w. record { holds = (refl, refl) };
}
