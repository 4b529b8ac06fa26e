-- ===== src/Auth/Tests/Sessions.antt =====
-- Permissions, tokens and sessions at a concrete state.
use demo_t.Base.{true, ◌≡◌, ◌↔◌, refl, ◌⊎◌, ◌≤◌, length, keep, drop_where}
use demo_t.Errors.Codes.{HttpStatus, ErrorCode}
use demo_t.Errors.Exceptions.{http_error}
use demo_t.Auth.Rows.{User, is_token_of}
use demo_t.Auth.Action.{Post}
use demo_t.Auth.Backend.InMemory.{in_memory}
use demo_t.Auth.Backend.InMemory.Lawful.{in_memory-IsBackend}
use demo_t.Auth.TokenConfig.{max_refresh_tokens_per_user}
use demo_t.Auth.Permission.{UserDto, to_user_dto, allowed, can_user_perform_action_on_user}
use demo_t.Auth.Permission.Rules.{MayActOn, can_user_perform_action_on_user_iff}
use demo_t.Auth.Tokens.{is_active_token_of, enforce_token_limit}
use demo_t.Auth.Tokens.Limit.{HasRoom, enforce_token_limit-HasRoom}
use demo_t.Auth.Tokens.Issue.{IsIssued}
use demo_t.Auth.Sessions.{sign_in, refresh_token, logout_all_devices, verify_token}
use demo_t.Auth.Sessions.SignIn.{MaySignIn, sign_in-establishes}
use demo_t.Auth.Sessions.Rotation.{refresh_token-theft, refresh_token-single_use}
use demo_t.Auth.Sessions.Success.{IsRotated, sign_in-succeeds, refresh_token-succeeds}
use demo_t.Auth.Sessions.Authority.{HasAuthority}
use demo_t.Auth.Sessions.Logout.{logout_all_devices-authorised}
use demo_t.Auth.Sessions.Verifying.{IsAnswer, verify_token-IsAnswer}
use demo_t.Auth.Tests.{ann, bob, phone, ann_row, shop, stolen_row, robbed, toy, ann_signs}

can_user_perform_action_on_user_iff_example :
    (can_user_perform_action_on_user (to_user_dto ann) bob ≡ allowed)
    ↔ MayActOn (to_user_dto ann) bob
can_user_perform_action_on_user_iff_example =
    can_user_perform_action_on_user_iff (to_user_dto ann) bob

refresh_token-succeeds_example :
    Post
      (IsRotated toy 100 "r9" ann phone ann_signs ann_row)
      (λ _ _. ⊥)
      (refresh_token toy in_memory 100 "r9" "refresh" phone shop)
refresh_token-succeeds_example =
    refresh_token-succeeds toy in_memory in_memory-IsBackend 100 "r9" "refresh" "r1" phone shop
      ann_row ann ann_signs ((1, refl), refl, refl, refl, refl) refl refl

refresh_token-single_use_example :
    Post
      (λ _ w'.
        Post
          (λ _ _. ⊥)
          (λ _ w''. w'' ≡ w')
          (refresh_token toy in_memory 200 "r10" "refresh" phone w'))
      (λ _ _. Unit {0})
      (refresh_token toy in_memory 100 "r9" "refresh" phone shop)
refresh_token-single_use_example =
    refresh_token-single_use toy in_memory in_memory-IsBackend 100 "r9" "refresh" "r1" phone shop
      200 "r10" phone (1, refl) (1, refl) (λ e. cc)

refresh_token-theft_example :
    Post
      (λ _ _. ⊥)
      (λ e w'.
        ((e ≡ http_error HttpStatus.unauthorized ErrorCode.refresh_token_invalid)
          × (w' ≡ record robbed { tokens = drop_where (is_token_of 1) robbed.tokens }))
        ⊎ (⊥ × (w' ≡ robbed)))
      (refresh_token toy in_memory 100 "r9" "refresh" phone robbed)
refresh_token-theft_example =
    refresh_token-theft toy in_memory in_memory-IsBackend 100 "r9" "refresh" "r1" phone robbed
      stolen_row (1, refl) refl refl refl

sign_in-succeeds_example :
    Post
      (IsIssued toy 100 "r9" ann phone ann_signs)
      (λ _ _. ⊥)
      (sign_in toy in_memory 100 "r9" "ann@shop" "secret" phone shop)
sign_in-succeeds_example =
    sign_in-succeeds toy in_memory in_memory-IsBackend 100 "r9" "ann@shop" "secret" phone shop ann
      ann_signs (refl, refl, refl, refl) refl

sign_in-establishes_example :
    Post
      (λ _ w'.
        (u : User) × MaySignIn toy "ann@shop" "secret" shop u
        × (length (keep (is_active_token_of u.id 100) w'.tokens) ≤ max_refresh_tokens_per_user))
      (λ _ _. Unit {0})
      (sign_in toy in_memory 100 "r9" "ann@shop" "secret" phone shop)
sign_in-establishes_example =
    sign_in-establishes toy in_memory in_memory-IsBackend 100 "r9" "ann@shop" "secret" phone shop

enforce_token_limit-HasRoom_example :
    Post (λ _ w'. HasRoom 2 100 w') (λ _ _. Unit {0}) (enforce_token_limit toy in_memory 100 2 shop)
enforce_token_limit-HasRoom_example =
    enforce_token_limit-HasRoom in_memory in_memory-IsBackend toy 100 2 shop

logout_all_devices-authorised_example :
    Post
      (λ answer w'.
        (current : UserDto) × (target : User) × HasAuthority toy 100 "access" 2 shop current target
        × (target.is_active ≡ true)
        × (answer.devices_logged_out ≡ length (keep (is_token_of 2) shop.tokens))
        × (w' ≡ record shop { tokens = drop_where (is_token_of 2) shop.tokens }))
      (λ _ w'. w' ≡ shop)
      (logout_all_devices toy in_memory 100 "access" 2 shop)
logout_all_devices-authorised_example =
    logout_all_devices-authorised toy in_memory in_memory-IsBackend 100 "access" 2 shop

verify_token-IsAnswer_example :
    Post
      (λ v w'. (w' ≡ shop) × IsAnswer ⊥ toy 100 "access" shop v)
      (λ _ _. ⊥)
      (verify_token toy in_memory 100 "access" shop)
verify_token-IsAnswer_example =
    verify_token-IsAnswer toy in_memory in_memory-IsBackend 100 "access" shop
