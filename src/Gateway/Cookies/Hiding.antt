-- ===== src/Gateway/Cookies/Hiding.antt =====
-- What a script in the page can read of the session's cookies, and how long they last.
use mathlib.Core.Option
use demo_t.Base.{
  ℕ, String, Bool, true, false, Option, none, some, List, ◌≡◌, refl, inl, inr, ◌===◌, ◌||◌, ◌*◌,
  ◌-◌, all, find, arith, Bool-cases, eq_iff, if◌then◌else◌,
}
use demo_t.Errors.Exceptions.{ok}
use demo_t.Gateway.Http.{Body, has_text}
use demo_t.Gateway.Cookies.{
  Decoder, Cookie, CookieData, PreparedCookieData, max_age_of, prepared, prepare_refresh_token,
  prepare_cookie_data, cookies_of, set_cookies_from_tokens,
}

abbrev holds : Option String → String → Bool
holds none text = false
holds (some s) text = s === text

-- A cookie that scripts cannot read, or that holds only a mark or the CSRF token.
abbrev pub is_harmless : String → Cookie → Bool
is_harmless csrf k = k.http_only || (holds k.value "1" || holds k.value csrf)

-- The value and the age of the cookie of a name, if it is set.
abbrev pub sent : String → List Cookie → Option CookieData
sent name cookies =
    Option.map (λ k. record { value = k.value; max_age = k.max_age })
      (find (λ k. k.name === name) cookies)

abbrev both : CookieData → Option CookieData → PreparedCookieData
both a r = record { access_token = a; refresh_token = r }

-- A cookie of a token that expires at a second: it holds the token for the milliseconds that are left, none
-- once they are over.
abbrev pub until_expiry : ℕ → Option String → Option ℕ → CookieData
until_expiry now token none = record { value = token; max_age = none }
until_expiry now token (some exp) = record { value = token; max_age = some (exp * 1000 - now) }

until_expiry-prepared :
    (now : ℕ) (token : Option String) (exp : Option ℕ)
    → until_expiry now token exp ≡ record { value = token; max_age = max_age_of now exp }
until_expiry-prepared now token none = refl
until_expiry-prepared now token (some exp) = refl

-- The refresh token's cookie, for a token that is there and not empty.
abbrev pub refresh_data : ℕ → Option String → Option ℕ → Option CookieData
refresh_data now none exp = none
refresh_data now (some token) exp =
    if token === "" then none else some (until_expiry now (some token) exp)

refresh_data-prepared :
    (now : ℕ) (token : Option String) (exp : Option ℕ)
    → refresh_data now token exp ≡ (
        if has_text token
        then some (record { value = token; max_age = max_age_of now exp })
        else none)
refresh_data-prepared now none exp = refl
refresh_data-prepared now (some token) exp =
    rw (until_expiry-prepared now (some token) exp) ground arith

-- What is shown of the list of cookies, with the access token's data and those of the refresh token if there is
-- one.
pub record IsHiding (csrf : String) (a : CookieData) (r : Option CookieData) (cookies : List Cookie)
    : Type 0 where
  pub harmless : all (is_harmless csrf) cookies ≡ true
  pub access : sent "accessToken" cookies ≡ some a
  pub refresh : sent "refreshToken" cookies ≡ r
  pub access_mark :
      sent "accessTokenPub" cookies ≡ some (record { value = some "1"; max_age = a.max_age })
  pub refresh_mark :
      sent "refreshTokenPub" cookies
      ≡ some
          (record { value = some "1"; max_age = elim r [ none ↦ a.max_age | some x ↦ x.max_age ] })
  pub csrf_token :
      sent "csrfToken" cookies
      ≡ some
          (record { value = some csrf; max_age = elim r [ none ↦ a.max_age | some x ↦ x.max_age ] })

cookies_of-IsHiding :
    (mode : Option String) (csrf : String) (a : CookieData) (r : Option CookieData)
    → IsHiding csrf a r (cookies_of mode csrf (both a r))
cookies_of-IsHiding mode csrf a none = record {
  harmless = ground (arith, eq_iff csrf csrf);
  access = refl;
  refresh = refl;
  access_mark = refl;
  refresh_mark = refl;
  csrf_token = refl;
}
cookies_of-IsHiding mode csrf a (some r) = record {
  harmless = ground (arith, eq_iff csrf csrf);
  access = refl;
  refresh = refl;
  access_mark = refl;
  refresh_mark = refl;
  csrf_token = refl;
}

-- Tokens that decode, the refresh token only where it is there, are always set as cookies. The access token's
-- cookie holds the access token, and its mark is 1; both last until the token expires. The refresh token's cookie
-- is set only where there is one, holds it and lasts until it expires; its mark, which is 1, and the CSRF token's
-- cookie, which holds the CSRF token, last as long as it, or without it as long as the access token. The cookies
-- that scripts can read hold only the mark 1 or the CSRF token.
pub set_cookies_from_tokens-IsHiding :
    (decode : Decoder) (now : ℕ) (mode : Option String) (csrf : String) (tokens : Body)
    (exp refresh_exp : Option ℕ)
    → decode tokens.access_token ≡ ok exp
    → (has_text tokens.refresh_token ≡ true → decode tokens.refresh_token ≡ ok refresh_exp)
    → (cookies : List Cookie) × (set_cookies_from_tokens decode now mode csrf tokens ≡ ok cookies)
      × IsHiding csrf
          (until_expiry now tokens.access_token exp)
          (refresh_data now tokens.refresh_token refresh_exp)
          cookies
unfolding set_cookies_from_tokens prepare_cookie_data prepare_refresh_token prepared
set_cookies_from_tokens-IsHiding decode now mode csrf tokens exp refresh_exp a r =
    rw
      (
        until_expiry-prepared now tokens.access_token exp,
        refresh_data-prepared now tokens.refresh_token refresh_exp,
      )
      (elim (Bool-cases (has_text tokens.refresh_token)) [
        | inl there ↦ rw (a, there, r there) (_, refl, cookies_of-IsHiding mode csrf _ (some _))
        | inr missing ↦ rw (a, missing) (_, refl, cookies_of-IsHiding mode csrf _ none)
      ])
