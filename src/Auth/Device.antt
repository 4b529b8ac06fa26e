-- ===== src/Auth/Device.antt =====
-- The device of a session, libs/utils/src/server/device-info/device-info.ts.
use demo_t.Base.{String, Option, none, some, ◌===◌, if◌then◌else◌}
use demo_t.Auth.Rows.{DeviceInfo}

-- What is read of a request; `forwarded_for` is the first part of the `x-forwarded-for` header, trimmed.
pub record Connection : Type 0 where
  pub user_agent : Option String
  pub ip : Option String
  pub remote_address : Option String
  pub forwarded_for : Option String

-- `{ userAgent?, ip? } | undefined`
pub record GivenDevice : Type 0 where
  pub user_agent : Option String
  pub ip : Option String

-- `a || b` on texts.
abbrev pub or_text : Option String → String → String
or_text none other = other
or_text (some s) other = if s === "" then other else s

unfoldable pub extract_client_ip : Connection → String
extract_client_ip request =
    or_text request.ip (or_text request.remote_address (or_text request.forwarded_for "Unknown"))

unfoldable pub extract_device_info : Connection → GivenDevice → DeviceInfo
unfolding extract_client_ip
extract_device_info request given = record {
  user_agent = or_text given.user_agent (or_text request.user_agent "Unknown");
  ip = or_text given.ip (or_text (some (extract_client_ip request)) "Unknown");
}

-- No device is given.
abbrev pub not_given : GivenDevice
not_given = record { user_agent = none; ip = none }
