-- ===== src/Gateway/Guards.antt =====
-- The gateway's guards, apps/server-nest/src/app/common/guards. A guard returns, or throws and ends the
-- request; the logging and the throttling by Nest's own guard are left out.
pub mod Csrf
use Prim.Native.Nat.{bit_or, bit_xor}
use Prim.Native.String
use demo_t.Base.{
  ℕ, String, Bool, true, false, not, Option, none, some, List, [], ◌∷◌, ◌==◌, ◌===◌, ◌&&◌, ◌||◌,
  ◌-◌, ltb, leb, length, any, map, codes, if◌then◌else◌,
}
use demo_t.Errors.Codes.{HttpStatus, ErrorCode, number, value}
use demo_t.Errors.Exceptions.{Exception, http, Result, ok, err}
use demo_t.Auth.Action.{Action, ◌>>=◌, lift, throw, pure, try_catch}
use demo_t.Auth.Backend.{Crypto, Backend, Payload}
use demo_t.Gateway.Http.{has_text, joined}
use demo_t.Gateway.Calls.{error_message_or}
use demo_t.Gateway.Verify.{Tools, verify_access_token}

-- What the guards read of a request. A cookie or header that is compared character by character is the
-- list of its UTF-16 code units.
pub record Request : Type 0 where
  pub method : List ℕ
  pub access_token : Option String
  pub refresh_token : Option String
  pub csrf_cookie : Option (List ℕ)
  pub csrf_header : Option (List ℕ)

-- `===` on lists of code units.
abbrev pub same_units : List ℕ → List ℕ → Bool
same_units [] [] = true
same_units [] (d ∷ b) = false
same_units (c ∷ a) [] = false
same_units (c ∷ a) (d ∷ b) = c == d && same_units a b

-- `toUpperCase` on an ASCII text.
unfoldable pub to_upper_case : List ℕ → List ℕ
to_upper_case [] = []
to_upper_case (c ∷ s) = (if leb b'a' c && leb c b'z' then c - 32 else c) ∷ to_upper_case s

abbrev pub max_token_length : ℕ
max_token_length = 64

-- The loop of `timingSafeEqual`, from the result so far. An index past the end of `b` would read `NaN`,
-- which counts as 0 there.
unfoldable pub mismatch : ℕ → List ℕ → List ℕ → ℕ
mismatch result [] b = result
mismatch result (c ∷ a) [] = mismatch (bit_or result (bit_xor c 0)) a []
mismatch result (c ∷ a) (d ∷ b) = mismatch (bit_or result (bit_xor c d)) a b

unfoldable pub timing_safe_equal : List ℕ → List ℕ → Bool
timing_safe_equal a b =
    if ltb max_token_length (length a) || ltb max_token_length (length b)
    then false
    else if not (length a == length b)
    then false
    else mismatch 0 a b == 0

-- JavaScript's truth of a cookie or header.
abbrev pub has_units : Option (List ℕ) → Bool
has_units none = false
has_units (some []) = false
has_units (some (c ∷ s)) = true

unfoldable pub is_read_only : List ℕ → Bool
is_read_only method =
    same_units method (codes "GET")
    || (same_units method (codes "HEAD") || same_units method (codes "OPTIONS"))

abbrev pub csrf_refusal : ErrorCode → Exception
csrf_refusal code = http (number HttpStatus.forbidden) (value code)

unfoldable pub check_csrf : Option (List ℕ) → Option (List ℕ) → Result (Unit {0})
check_csrf (some (c ∷ cookie)) (some (d ∷ header)) =
    if timing_safe_equal (c ∷ cookie) (d ∷ header)
    then ok tt
    else err (csrf_refusal ErrorCode.csrf_token_invalid)
check_csrf cookie header = err (csrf_refusal ErrorCode.csrf_token_missing)

-- `CsrfGuard.canActivate`; `skip` is the handler's `@SkipCsrf()`.
unfoldable pub csrf_guard : Bool → Request → Result (Unit {0})
csrf_guard skip request =
    if skip
    then ok tt
    else if is_read_only (to_upper_case request.method)
    then ok tt
    else check_csrf request.csrf_cookie request.csrf_header

-- The user that `AccessTokenGuard` puts in the request, with the token.
module _ (t : Tools) (c : Crypto) (b : Backend) (network : Result (Unit {0})) (now : ℕ) where
  unfoldable pub verify_or_refuse : String → Action Payload
  verify_or_refuse token = try_catch (verify_access_token t c b network now token) (λ e.
      throw
        (http (number HttpStatus.unauthorized) (error_message_or e "Invalid accessToken token")))

  unfoldable pub access_token_guard : Option String → Action (Payload × String)
  access_token_guard none =
      throw (http (number HttpStatus.unauthorized) "No accessToken token found")
  access_token_guard (some token) =
      if token === ""
      then throw (http (number HttpStatus.unauthorized) "No accessToken token found")
      else (verify_or_refuse token >>= λ payload. pure (payload, token))

unfoldable pub refresh_token_guard : Option String → Result String
refresh_token_guard none = err (http (number HttpStatus.unauthorized) "Refresh token not found")
refresh_token_guard (some token) =
    if token === ""
    then err (http (number HttpStatus.unauthorized) "Refresh token not found")
    else ok token

-- `user.role`; the payload of a refresh token has none.
abbrev pub role_of : Payload → Option String
role_of (Payload.access id email role) = some role
role_of (Payload.refresh user_id token_id type) = none

abbrev pub has_role : Option String → String → Bool
has_role none required = false
has_role (some role) required = role === required

-- `RolesGuard.canActivate`, after the guard that sets the user.
unfoldable pub roles_guard : List String → Payload → Result (Unit {0})
roles_guard [] user = ok tt
roles_guard (role ∷ roles) user =
    if any (has_role (role_of user)) (role ∷ roles)
    then ok tt
    else err (
        http (number HttpStatus.forbidden)
          (String.◌++◌ "Insufficient permissions. Required roles: " (joined ", " (role ∷ roles))))
