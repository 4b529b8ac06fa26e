-- ===== src/Gateway/Journey.antt =====
-- A sign-in from the browser to the auth service and back.
use Prim.Native.String
use demo_t.Base.{ℕ, String, false, Option, some, ◌≡◌, refl, ◌===◌, any}
use demo_t.Errors.Exceptions.{Exception, Result, ok, err}
use demo_t.Auth.Rows.{User, World, DeviceInfo, is_token}
use demo_t.Auth.Action.{Action, Post}
use demo_t.Auth.Backend.{Crypto, Backend, IsBackend}
use demo_t.Auth.Device.{Connection, GivenDevice, extract_device_info, not_given}
use demo_t.Auth.Tokens.{AuthTokens}
use demo_t.Auth.Tokens.Issue.{Signs, IsIssued}
use demo_t.Auth.Sessions.SignIn.{MaySignIn}
use demo_t.Auth.Sessions.Success.{sign_in-succeeds}
use demo_t.Auth.Controller
use demo_t.Gateway.Http.{Body, empty_body, Response, Sender, sign_in_call, is_valid_response}
use demo_t.Gateway.Calls
use demo_t.Gateway.Calls.{request, body_or_throw, body_message}
use demo_t.Gateway.Guards.{Request, csrf_guard}
use demo_t.Gateway.Cookies.{Decoder}
use demo_t.Gateway.Cookies.Hiding.{
  IsHiding, until_expiry, refresh_data, set_cookies_from_tokens-IsHiding,
}
use demo_t.Gateway.Controller.{Reply, empty_reply, reply_with_tokens, sign_in}

-- The JSON of the auth service's tokens.
abbrev pub tokens_body : AuthTokens → Body
tokens_body tokens = record empty_body {
  access_token = some tokens.access_token;
  refresh_token = some tokens.refresh_token;
  expires_in = some tokens.expires_in;
}

-- What the auth service answers, where its filters turn an exception into an answer.
abbrev pub answered : (Exception → Response) → Result AuthTokens → Response
answered refuse (ok tokens) = record { status = 200; body = some (tokens_body tokens) }
answered refuse (err e) = refuse e

-- The device that the gateway sends on.
abbrev pub sent_device : DeviceInfo → GivenDevice
sent_device device = record { user_agent = some device.user_agent; ip = some device.ip }

-- The reply carries the session of these tokens.
abbrev pub IsSession : String → ℕ → AuthTokens → Option ℕ → Option ℕ → Reply → Type 0
IsSession csrf now tokens exp refresh_exp reply =
    (reply.status ≡ 200)
    × (reply.expires_in ≡ some tokens.expires_in)
    × IsHiding csrf (until_expiry now (some tokens.access_token) exp)
        (refresh_data now (some tokens.refresh_token) refresh_exp) reply.cookies

module _ (send : Sender) (url : String) (decode : Decoder) (mode : Option String) (csrf : String)
    (now : ℕ) where
  reply_with_tokens-IsSession :
      (tokens : AuthTokens) (exp refresh_exp : Option ℕ) (w : World)
      → decode (some tokens.access_token) ≡ ok exp
      → decode (some tokens.refresh_token) ≡ ok refresh_exp
      → (reply : Reply) × (reply_with_tokens send url decode mode csrf now (tokens_body tokens) w
          ≡ (ok reply, w))
        × IsSession csrf now tokens exp refresh_exp reply
  unfolding reply_with_tokens
  reply_with_tokens-IsSession tokens exp refresh_exp w a r =
      let (cookies, set, hiding) =
        set_cookies_from_tokens-IsHiding decode now mode csrf (tokens_body tokens) exp refresh_exp a
          (λ _. r) in
      (
        record (empty_reply 200) { cookies = cookies; expires_in = some tokens.expires_in },
        rw set refl,
        (refl, refl, hiding),
      )

  sign_in-IsSession :
      (request_ : Request) (connection : Connection) (email password : String)
      (refuse : Exception → Response) (x : Result AuthTokens) (tokens : AuthTokens)
      (exp refresh_exp : Option ℕ) (w : World)
      → send
          (String.◌++◌ url "/sign-in")
          (sign_in_call email password (extract_device_info connection not_given))
        ≡ ok (answered refuse x)
      → x ≡ ok tokens
      → (tokens.access_token === "") ≡ false
      → decode (some tokens.access_token) ≡ ok exp
      → decode (some tokens.refresh_token) ≡ ok refresh_exp
      → (reply : Reply) × (sign_in send url decode mode csrf now request_ connection email password
            w
          ≡ (ok reply, w))
        × IsSession csrf now tokens exp refresh_exp reply
  unfolding sign_in csrf_guard Calls.sign_in is_valid_response body_or_throw
  sign_in-IsSession request_ connection email password refuse x tokens exp refresh_exp w sent good
        filled a r =
      rw (sent, good) (rw filled (reply_with_tokens-IsSession tokens exp refresh_exp w a r))

-- The device that the auth service takes from the gateway's request, which names the browser's.
abbrev pub device_at : Connection → Connection → DeviceInfo
device_at auth_connection connection =
    extract_device_info auth_connection (sent_device (extract_device_info connection not_given))

-- What the auth service does with the gateway's request.
abbrev pub signed_in :
    Crypto → Backend → ℕ → String → Connection → Connection → String → String → Action AuthTokens
signed_in c b at token_id auth_connection connection email password =
    Controller.sign_in c b at token_id auth_connection email password
      (sent_device (extract_device_info connection not_given))

returned :
    {A : Type 0} {Q : A → World → Type 0} (x : Result A × World)
    → Post Q (λ _ _. ⊥) x
    → (a : A) × (x.0 ≡ ok a) × Q a x.1
returned (ok a, w) h = (a, refl, h.holds)
returned (err e, w) h = absurd h.holds

-- The right password for an active account with a verified email signs in through the gateway, where no
-- server fails, the new token id is free and the tokens are signed and decode: the browser is answered 200
-- with the session's cookies, which carry the access token and the refresh token that were signed, and the
-- auth service has stored the row of that refresh token: its id, its hash, the user, the device and an expiry 7 days later.
pub sign_in-journey :
    (send : Sender) (url : String) (decode : Decoder) (mode : Option String) (csrf : String)
    (now at : ℕ) (c : Crypto) (b : Backend) (L : IsBackend ⊥ b) (refuse : Exception → Response)
    (request_ : Request) (connection auth_connection : Connection)
    (email password token_id : String) (g w : World) (u : User) (s : Signs c at token_id u)
    (exp refresh_exp : Option ℕ)
    → MaySignIn c email password w u
    → any (is_token token_id) w.tokens ≡ false
    → (s.access_token === "") ≡ false
    → decode (some s.access_token) ≡ ok exp
    → decode (some s.refresh_token) ≡ ok refresh_exp
    → send
        (String.◌++◌ url "/sign-in")
        (sign_in_call email password (extract_device_info connection not_given))
      ≡ ok (
          answered refuse (signed_in c b at token_id auth_connection connection email password w).0)
    → (reply : Reply) × (tokens : AuthTokens) × (sign_in send url decode mode csrf now request_
          connection email password g
        ≡ (ok reply, g))
      × IsSession csrf now tokens exp refresh_exp reply
      × IsIssued c at token_id u
          (device_at auth_connection connection)
          s
          tokens
          (signed_in c b at token_id auth_connection connection email password w).1
unfolding Controller.sign_in
sign_in-journey send url decode mode csrf now at c b L refuse request_ connection auth_connection
      email password token_id g w u s exp refresh_exp may fresh filled a r sent =
    let device = device_at auth_connection connection in
    let (tokens, good, (access, refresh, stored)) =
      returned _ (sign_in-succeeds c b L at token_id email password device w u s may fresh) in
    let (reply, done, session) =
      sign_in-IsSession send url decode mode csrf now request_ connection email password refuse _
        tokens exp refresh_exp g sent good (rw access filled) (rw access a) (rw refresh r) in
    (reply, tokens, done, session, (access, refresh, stored))
