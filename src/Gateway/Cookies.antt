-- ===== src/Gateway/Cookies.antt =====
-- The cookies that carry a session: `prepareCookieData` of apps/server-nest/src/app/modules/auth/auth.service.ts
-- and `setCookiesFromTokens` of auth.controller.ts beside it.
pub mod Hiding
use demo_t.Base.{
  ℕ, String, Bool, true, false, Option, none, some, List, [], ◌∷◌, ◌++◌, ◌===◌, ◌-◌, ◌*◌,
  if◌then◌else◌,
}
use demo_t.Errors.Exceptions.{Exception, Result, ok, err}
use demo_t.Gateway.Http.{Body, has_text}
use demo_t.Gateway.Calls.{◌>>=◌}

-- libs/models/src/constants/cookies.ts
abbrev pub access_token_cookie : String
access_token_cookie = "accessToken"

abbrev pub refresh_token_cookie : String
refresh_token_cookie = "refreshToken"

abbrev pub access_token_pub_cookie : String
access_token_pub_cookie = "accessTokenPub"

abbrev pub refresh_token_pub_cookie : String
refresh_token_pub_cookie = "refreshTokenPub"

-- In milliseconds; `none` is `NaN`.
pub record CookieData : Type 0 where
  pub value : Option String
  pub max_age : Option ℕ

pub record PreparedCookieData : Type 0 where
  pub access_token : CookieData
  pub refresh_token : Option CookieData

-- `jwtDecode` reads what the field holds, and gives the `exp` claim, in seconds.
abbrev pub Decoder : Type 0
Decoder = Option String → Result (Option ℕ)

-- `Math.max(exp * 1000 - Date.now(), 0)`; an `exp` that is not there gives `NaN`.
abbrev pub max_age_of : ℕ → Option ℕ → Option ℕ
max_age_of now none = none
max_age_of now (some exp) = some (exp * 1000 - now)

module _ (decode : Decoder) (now : ℕ) where
  unfoldable pub prepared : Option String → Result CookieData
  prepared token =
      decode token >>= λ exp. ok (record { value = token; max_age = max_age_of now exp })

  unfoldable pub prepare_refresh_token : CookieData → Option String → Result PreparedCookieData
  prepare_refresh_token access_token token =
      if has_text token
      then (prepared token >>= λ prepared_data.
          ok (record { access_token = access_token; refresh_token = some prepared_data }))
      else ok (record { access_token = access_token; refresh_token = none })

  unfoldable pub prepare_cookie_data : Body → Result PreparedCookieData
  prepare_cookie_data tokens = prepared tokens.access_token >>= λ access_token.
      prepare_refresh_token access_token tokens.refresh_token

pub data SameSite : Type 0 where
  strict lax : SameSite

-- One call of `res.cookie`; `path` is always `/`.
pub record Cookie : Type 0 where
  pub name : String
  pub value : Option String
  pub http_only : Bool
  pub secure : Bool
  pub same_site : SameSite
  pub max_age : Option ℕ

-- A cookie with the base options, for a session that lasts as long as given. `isProduction` is the text of
-- the variable `NX_PUBLIC_MODE`, so any text that is not empty counts as true.
abbrev pub base_cookie : Option String → String → Option String → Bool → Option ℕ → Cookie
base_cookie mode name value http_only max_age = record {
  name = name;
  value = value;
  http_only = http_only;
  secure = has_text mode;
  same_site = if has_text mode then strict else lax;
  max_age = max_age;
}

abbrev pub common_max_age : PreparedCookieData → Option ℕ
common_max_age prepared_data = elim prepared_data.refresh_token [
  | none ↦ prepared_data.access_token.max_age
  | some refresh_token ↦ refresh_token.max_age
]

abbrev refresh_token_cookies : Option String → Option CookieData → List Cookie
refresh_token_cookies mode none = []
refresh_token_cookies mode (some cookie) =
    base_cookie mode refresh_token_cookie cookie.value true cookie.max_age ∷ []

-- The cookies in the order in which they are set, with the random CSRF token.
abbrev pub cookies_of : Option String → String → PreparedCookieData → List Cookie
cookies_of mode csrf prepared_data =
    base_cookie mode access_token_cookie prepared_data.access_token.value true
      prepared_data.access_token.max_age
    ∷ (refresh_token_cookies mode prepared_data.refresh_token
        ++ (base_cookie mode access_token_pub_cookie (some "1") false
              prepared_data.access_token.max_age
            ∷ base_cookie mode refresh_token_pub_cookie (some "1") false
                (common_max_age prepared_data)
            ∷ base_cookie mode "csrfToken" (some csrf) false (common_max_age prepared_data)
            ∷ []))

unfoldable pub set_cookies_from_tokens :
    Decoder → ℕ → Option String → String → Body → Result (List Cookie)
set_cookies_from_tokens decode now mode csrf tokens =
    prepare_cookie_data decode now tokens >>= λ prepared_data.
    ok (cookies_of mode csrf prepared_data)
