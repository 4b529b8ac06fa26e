-- ===== src/Gateway/Controller/Admin.antt =====
-- Who may update users through the gateway.
use mathlib.Core.Option
use demo_t.Base.{ℕ, String, false, Option, some, ◌≡◌, ◌≢◌, ◌⊎◌}
use demo_t.Errors.Codes.{HttpStatus, number}
use demo_t.Errors.Exceptions.{Exception, http, ok, err}
use demo_t.Auth.Backend.{Crypto, Backend, Payload}
use demo_t.Auth.Users.{UpdateUserParams}
use demo_t.Gateway.Http.{Sender}
use demo_t.Gateway.Calls
use demo_t.Gateway.Guards.{Request, csrf_guard, role_of}
use demo_t.Gateway.Controller.{update_user}

-- The payload is that of an administrator's access token.
abbrev pub IsAdmin : Payload → Type 0
IsAdmin payload = role_of payload ≡ some "ADMIN"

-- The user that the guard lets in.
abbrev pub IsSignedIn : Crypto → ℕ → Option String → Payload × String → Type 0
IsSignedIn c now cookie (payload, token) =
    (cookie ≡ some token) × (c.verify c.jwt_secret now token ≡ ok payload)

-- Why an update is refused: by the CSRF guard, with 401, with 403 to a signed-in user who is no
-- administrator, or by the auth service.
abbrev pub Refused :
    Crypto → ℕ → Sender → String → Request → ℕ → UpdateUserParams → Exception → Type 0
Refused c now send url request id params e =
    (csrf_guard false request ≡ err e)
    ⊎ ((m : String) × (e ≡ http (number HttpStatus.unauthorized) m))
    ⊎ ((m : String) × (user : Payload × String) × IsSignedIn c now request.access_token user
        × (role_of user.0 ≢ some "ADMIN")
        × (e ≡ http (number HttpStatus.forbidden) m))
    ⊎ ((user : Payload × String) × IsSignedIn c now request.access_token user
        × IsAdmin user.0
        × (Calls.update_user send url user.1 id params ≡ err e))
