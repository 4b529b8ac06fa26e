-- ===== src/Auth/Tests/Accounts.antt =====
-- Accounts and their verification at a concrete state.
use demo_t.Base.{ℕ, String, true, false, none, some, ◌∷◌, ◌≡◌, ◌⊎◌, find, change}
use demo_t.Errors.Exceptions.{ok}
use demo_t.Auth.Rows.{User, World, is_user}
use demo_t.Auth.Action.{Post}
use demo_t.Auth.Backend.InMemory.{in_memory}
use demo_t.Auth.Backend.InMemory.Lawful.{in_memory-IsBackend}
use demo_t.Auth.Permission.{UserDto}
use demo_t.Auth.Sessions.Authority.{HasAuthority}
use demo_t.Auth.Users.{create_user, update_user, soft_delete_user, hard_delete_user}
use demo_t.Auth.Users.Deletion.{
  soft_deleted, hard_deleted, soft_delete_user-authorised, hard_delete_user-authorised,
}
use demo_t.Auth.Users.Updates.{MayWrite, asked, profile_of, update_user-authorised}
use demo_t.Auth.Users.Creation.{Frees, registered, create_user-Frees}
use demo_t.Auth.EmailVerification.{verify_email, get_me}
use demo_t.Errors.Filters.{get_error_response}
use demo_t.Auth.EmailVerification.Profile.{Answers, Refuses, get_me-Outcome}
use demo_t.Auth.EmailVerification.SingleUse.{
  MayVerify, marked, consumed, verify_email-establishes, verify_email-single_use,
}
use demo_t.Auth.Tests.{shop, toy, dan, new_name}

soft_delete_user-authorised_example :
    Post
      (λ u w'.
        (current : UserDto) × (target : User) × HasAuthority toy 100 "access" 2 shop current target
        × (target.is_active ≡ true)
        × (u.is_active ≡ false)
        × (w' ≡ soft_deleted 100 2 shop))
      (λ _ w'. w' ≡ shop)
      (soft_delete_user toy in_memory 100 "access" 2 shop)
soft_delete_user-authorised_example =
    soft_delete_user-authorised toy in_memory in_memory-IsBackend 100 "access" 2 shop

hard_delete_user-authorised_example :
    Post
      (λ _ w'.
        (current : UserDto) × (target : User) × HasAuthority toy 100 "access" 2 shop current target
        × (w' ≡ hard_deleted 2 shop))
      (λ _ w'. w' ≡ shop)
      (hard_delete_user toy in_memory 100 "access" 2 shop)
hard_delete_user-authorised_example =
    hard_delete_user-authorised toy in_memory in_memory-IsBackend 100 "access" 2 shop

update_user-authorised_example :
    Post
      (λ profile w'.
        (current : UserDto) × (target : User) × (u : User) × HasAuthority toy 100 "access" 2 shop
          current target
        × (target.is_active ≡ true)
        × MayWrite current new_name
        × (w'
            ≡ record shop { users = change (is_user 2) (asked toy.lower new_name 100) shop.users })
        × (find (is_user 2) w'.users ≡ some u)
        × (profile ≡ profile_of u))
      (λ _ w'. w' ≡ shop)
      (update_user toy in_memory 100 "access" 2 new_name shop)
update_user-authorised_example =
    update_user-authorised toy in_memory in_memory-IsBackend 100 "access" 2 new_name shop

create_user-Frees_example :
    Post
      (λ u w'.
        (w₁ : World) × (hashed : String) × Frees 100 "dan@shop" shop w₁
        × (toy.hash "secret" 10 ≡ ok hashed)
        × (find (is_user u.id) w₁.users ≡ none)
        × (u ≡ registered toy 100 dan u.id hashed)
        × (w' ≡ record w₁ { users = u ∷ w₁.users }))
      (λ _ w'. (w' ≡ shop) ⊎ Frees 100 "dan@shop" shop w')
      (create_user toy in_memory 100 dan shop)
create_user-Frees_example = create_user-Frees toy in_memory in_memory-IsBackend 100 dan shop

verify_email-establishes_example :
    Post
      (λ r w'.
        (id : ℕ) × (u : User) × MayVerify 100 "v3" shop id u
        × (r.email ≡ u.email)
        × (r.verified_at ≡ some 100)
        × (w' ≡ consumed "v3" (marked 100 id shop)))
      (λ _ w'.
        (w' ≡ shop)
        ⊎ (⊥ × ((id : ℕ) × (u : User) × MayVerify 100 "v3" shop id u × (w' ≡ marked 100 id shop))))
      (verify_email in_memory 100 "v3" shop)
verify_email-establishes_example =
    verify_email-establishes in_memory in_memory-IsBackend 100 "v3" shop

verify_email-single_use_example :
    Post
      (λ _ w'. Post (λ _ _. ⊥) (λ _ w''. w'' ≡ w') (verify_email in_memory 200 "v3" w'))
      (λ _ _. Unit {0})
      (verify_email in_memory 100 "v3" shop)
verify_email-single_use_example =
    verify_email-single_use in_memory in_memory-IsBackend 100 200 "v3" shop

get_me-Outcome_example :
    Post
      (λ profile w'. (w' ≡ shop) × Answers toy 100 "access" shop profile)
      (λ e w'. (w' ≡ shop) × Refuses ⊥ toy 100 "access" shop (get_error_response 100 e))
      (get_me toy in_memory 100 "access" shop)
get_me-Outcome_example = get_me-Outcome toy in_memory in_memory-IsBackend 100 "access" shop
