-- ===== src/Gateway/Tests/Journey.antt =====
-- Ann signs in from her phone.
use demo_t.Base.{true, none, some, [], ◌∷◌, ◌≡◌, refl, ◌===◌}
use demo_t.Errors.Exceptions.{Exception, ok}
use demo_t.Auth.Rows.{User, World}
use demo_t.Auth.Backend.{Crypto, Payload, new_user}
use demo_t.Auth.Backend.InMemory.{in_memory}
use demo_t.Auth.Backend.InMemory.Lawful.{in_memory-IsBackend}
use demo_t.Auth.Device.{Connection}
use demo_t.Auth.Tokens.{AuthTokens}
use demo_t.Auth.Tokens.Issue.{Signs, IsIssued}
use demo_t.Gateway.Http.{Sender, Response}
use demo_t.Gateway.Guards.{Request}
use demo_t.Gateway.Controller.{Reply, sign_in}
use demo_t.Gateway.Journey.{answered, device_at, signed_in, IsSession, sign_in-journey}

abbrev toy : Crypto
toy = record {
  sign = λ _ _ _ _. ok "signed";
  verify = λ _ _ token. ok (Payload.access 1 "ann@shop" "ADMIN");
  hash = λ text _. ok text;
  compare = λ text hash. ok (text === hash);
  lower = λ text. text;
  jwt_secret = some "secret";
  jwt_refresh_secret = none;
}

abbrev ann : User
ann =
    record (new_user 1 0
      (record { email = "ann@shop"; password = "secret"; name = none; original_email = none })) {
        email_verified = true;
      }

abbrev shop : World
shop = record { users = ann ∷ []; tokens = []; redis = []; events = [] }

abbrev phone : Connection
phone = record {
  user_agent = some "phone";
  ip = some "10.0.0.1";
  remote_address = none;
  forwarded_for = none;
}

abbrev inside : Connection
inside = record {
  user_agent = some "axios";
  ip = some "10.0.0.9";
  remote_address = none;
  forwarded_for = none;
}

abbrev ann_signs : Signs toy 100 "r1" ann
ann_signs = record {
  access_token = "signed";
  refresh_token = "signed";
  hashed = "signed";
  signs_access = refl;
  signs_refresh = refl;
  hashes = refl;
}

abbrev refuse : Exception → Response
refuse e = record { status = 500; body = none }

abbrev auth_service : Sender
auth_service _ _ =
    ok (answered refuse (signed_in toy in_memory 100 "r1" inside phone "ann@shop" "secret" shop).0)

abbrev post : Request
post = record {
  method = [];
  access_token = none;
  refresh_token = none;
  csrf_cookie = none;
  csrf_header = none;
}

sign_in-journey_example :
    (reply : Reply) × (tokens : AuthTokens) × (sign_in auth_service "auth"
        (λ _. ok (some 900))
        none
        "t0k3n"
        100
        post
        phone
        "ann@shop"
        "secret"
        shop
      ≡ (ok reply, shop))
    × IsSession "t0k3n" 100 tokens (some 900) (some 900) reply
    × IsIssued toy 100 "r1" ann
        (device_at inside phone)
        ann_signs
        tokens
        (signed_in toy in_memory 100 "r1" inside phone "ann@shop" "secret" shop).1
sign_in-journey_example =
    sign_in-journey auth_service "auth" (λ _. ok (some 900)) none "t0k3n" 100 100 toy in_memory
      in_memory-IsBackend refuse post phone inside "ann@shop" "secret" "r1" shop shop ann ann_signs
      (some 900) (some 900) (refl, refl, refl, refl) refl refl refl refl refl
