-- ===== src/Auth/TokenConfig.antt =====
-- apps/auth-service/src/app/constants/auth-tokens-config.ts. The two `JWT_EXPIRY` texts, "15m" and
-- "7d", are given as the seconds that they stand for.
use demo_t.Base.{ℕ, String, ◌*◌}

abbrev pub access_token_minutes : ℕ
access_token_minutes = 15

abbrev pub access_token_seconds : ℕ
access_token_seconds = access_token_minutes * 60

abbrev pub refresh_token_days : ℕ
refresh_token_days = 7

abbrev pub refresh_token_seconds : ℕ
refresh_token_seconds = refresh_token_days * 24 * 60 * 60

abbrev pub refresh_token_milliseconds : ℕ
refresh_token_milliseconds = refresh_token_seconds * 1000

abbrev pub token_prefix : String
token_prefix = "email:verification:"

abbrev pub email_verification_minutes : ℕ
email_verification_minutes = 30

abbrev pub email_verification_seconds : ℕ
email_verification_seconds = email_verification_minutes * 60

abbrev pub email_verification_milliseconds : ℕ
email_verification_milliseconds = email_verification_seconds * 1000

abbrev pub max_refresh_tokens_per_user : ℕ
max_refresh_tokens_per_user = 5
