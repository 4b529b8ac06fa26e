-- ===== src/Gateway/Tests.antt =====
-- The gateway before an auth service that refuses, and its cache.
mod Journey
use text.Mathlib.TextLemmas.{append_cancel_left}
use demo_t.Base.{
  String, false, none, some, List, [], ◌∷◌, ◌≡◌, ◌↔◌, codes, arith, refl, ◌===◌, if◌then◌else◌,
}
use demo_t.Errors.Codes.{HttpStatus, ErrorCode, number}
use demo_t.Errors.Tables.{message_of}
use demo_t.Errors.Exceptions.{named, Result, ok, err}
use demo_t.Auth.Rows.{World, DeviceInfo}
use demo_t.Auth.Action.{Post}
use demo_t.Auth.Backend.{Crypto, Payload, new_user}
use demo_t.Auth.Backend.InMemory.{in_memory}
use demo_t.Auth.Backend.InMemory.Lawful.{in_memory-IsBackend}
use demo_t.Auth.Users.{CreateUserParams, UpdateUserParams}
use demo_t.Gateway.Http.{Sender, Body, empty_body}
use demo_t.Gateway.Calls
use demo_t.Gateway.Guards.{Request, csrf_guard}
use demo_t.Gateway.Guards.Csrf.{MayPass, csrf_guard_iff}
use demo_t.Gateway.Cookies.{Cookie, set_cookies_from_tokens}
use demo_t.Gateway.Cookies.Hiding.{IsHiding, set_cookies_from_tokens-IsHiding}
use demo_t.Gateway.Calls.{register_user, sign_in, refresh_token}
use demo_t.Gateway.Relay.{answer_for, inferred}
use demo_t.Gateway.Refusals.{
  client_answer, refusal, sign_in-relays, refresh_token-inferred, register_user-relays,
}
use demo_t.Gateway.Verify.{Tools, verify_access_token}
use demo_t.Gateway.Verify.Refinement.{IsTools, IsFaithful, MayThrow, verify_access_token-IsFaithful}

-- An auth service that refuses every call in the same way.
abbrev refusing : HttpStatus → ErrorCode → Sender
refusing status c _ _ = ok (refusal 5 status c)

abbrev phone : DeviceInfo
phone = record { user_agent = "phone"; ip = "10.0.0.1" }

abbrev dan : CreateUserParams
dan = record { email = "dan@shop"; password = "secret"; name = none }

sign_in-relays_example :
    client_answer 9 (
      sign_in
        (refusing HttpStatus.forbidden ErrorCode.email_not_verified)
        "auth"
        "dan@shop"
        "secret"
        phone)
    ≡ some (record {
      status_code = number HttpStatus.forbidden;
      message = message_of ErrorCode.email_not_verified;
      error_code = some ErrorCode.email_not_verified;
      timestamp = 9;
    })
sign_in-relays_example =
    sign_in-relays (refusing HttpStatus.forbidden ErrorCode.email_not_verified) "auth" 5 9
      HttpStatus.forbidden ErrorCode.email_not_verified "dan@shop" "secret" phone refl refl

refresh_token-inferred_example :
    client_answer 9
      (refresh_token (refusing HttpStatus.unauthorized ErrorCode.token_expired) "auth" "old" phone)
    ≡ some (answer_for 9 (inferred ErrorCode.token_expired))
refresh_token-inferred_example =
    refresh_token-inferred (refusing HttpStatus.unauthorized ErrorCode.token_expired) "auth" 5 9
      HttpStatus.unauthorized ErrorCode.token_expired "old" phone refl

-- One token verifies, and expires at second 900.
abbrev payload : Payload
payload = Payload.access 1 "ann@shop" "ADMIN"

abbrev check : String → Result Payload
check token =
    if token === "good" then ok payload else err (named "JsonWebTokenError" "invalid token")

abbrev toy : Crypto
toy = record {
  sign = λ _ _ _ _. ok "good";
  verify = λ _ _ token. check token;
  hash = λ text _. ok text;
  compare = λ text hash. ok (text === hash);
  lower = λ text. text;
  jwt_secret = some "secret";
  jwt_refresh_secret = none;
}

abbrev tools : Tools
tools = record {
  sha256 = λ text. text;
  stringify = λ _. "{}";
  parse = λ text. if text === "{}" then some payload else none;
  exp = λ _. some 900;
}

same_payload : (token : String) (p : Payload) → check token ≡ ok p → some payload ≡ some p
same_payload token p v = ground (arith, v)

tools-IsTools : IsTools tools toy
tools-IsTools = record {
  injective = λ x y e. append_cancel_left "auth:token:" x y e;
  reads_back = λ now token p v. same_payload token p v;
  stays = λ now later token p e v exp soon. v;
}

-- Ann has an account, and nothing is cached.
abbrev start : World
start = record {
  users =
      new_user 1 0
        (record { email = "ann@shop"; password = "secret"; name = none; original_email = none })
      ∷ [];
  tokens = [];
  redis = [];
  events = [];
}

verify_access_token-IsFaithful_example :
    Post
      (λ p w'. (toy.verify toy.jwt_secret 100000 "good" ≡ ok p) × IsFaithful tools toy w'.redis)
      (λ _ w'. IsFaithful tools toy w'.redis × MayThrow ⊥ toy (ok tt) 100000 "good" start)
      (verify_access_token tools toy in_memory (ok tt) 100000 "good" start)
verify_access_token-IsFaithful_example =
    verify_access_token-IsFaithful tools toy in_memory tools-IsTools in_memory-IsBackend (ok tt)
      100000 "good" start (λ token now p e. cc)

-- A POST with the same CSRF token in the cookie and in the header.
abbrev post : Request
post = record {
  method = codes "post";
  access_token = some "good";
  refresh_token = some "refresh";
  csrf_cookie = some (codes "t0k3n");
  csrf_header = some (codes "t0k3n");
}

csrf_guard_iff_example : (csrf_guard false post ≡ ok tt) ↔ MayPass false post
csrf_guard_iff_example = csrf_guard_iff false post

abbrev accepting : Sender
accepting _ _ = ok (record { status = 200; body = some (record empty_body { id = some 2 }) })

abbrev new_name : UpdateUserParams
new_name = record { email = none; name = some "Bob"; email_verified = none }

abbrev session : Body
session = record empty_body {
  access_token = some "good";
  refresh_token = some "refresh";
  expires_in = some 900;
}

set_cookies_from_tokens-IsHiding_example :
    (cookies : List Cookie) × (set_cookies_from_tokens
        (λ _. ok (some 900))
        100000
        (some "production")
        "t0k3n"
        session
      ≡ ok cookies)
    × IsHiding "t0k3n"
        (record { value = session.access_token; max_age = some 800000 })
        (some (record { value = some "refresh"; max_age = some 800000 }))
        cookies
set_cookies_from_tokens-IsHiding_example =
    set_cookies_from_tokens-IsHiding (λ _. ok (some 900)) 100000 (some "production") "t0k3n" session
      (some 900) (some 900) refl (λ _. refl)
