-- ===== src/Auth/Permission/Rules.antt =====
-- The permission check against its business rules.
use demo_t.Base.{◌≡◌, ◌≢◌, ◌↔◌, ◌⊎◌, arith}
use demo_t.Auth.Rows.{admin, manager, client, User}
use demo_t.Auth.Permission.{UserDto, allowed, can_user_perform_action_on_user}

-- The documented rules: on oneself; an admin on any user that is no admin; a manager on a client.
abbrev pub MayActOn : UserDto → User → Type 0
MayActOn current target =
    (current.id ≡ target.id)
    ⊎ ((current.role ≡ admin) × (target.role ≢ admin))
    ⊎ ((current.role ≡ manager) × (target.role ≡ client))

may_act :
    (current : UserDto) (target : User)
    → can_user_perform_action_on_user current target ≡ allowed
    → MayActOn current target
unfolding can_user_perform_action_on_user
may_act current target h = ground arith

allows :
    (current : UserDto) (target : User)
    → MayActOn current target
    → can_user_perform_action_on_user current target ≡ allowed
unfolding can_user_perform_action_on_user
allows current target h = ground arith

-- The service allows an action exactly when one of the documented rules does.
pub can_user_perform_action_on_user_iff :
    (current : UserDto) (target : User)
    → (can_user_perform_action_on_user current target ≡ allowed) ↔ MayActOn current target
can_user_perform_action_on_user_iff current target = (may_act current target, allows current target)
