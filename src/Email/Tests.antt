-- ===== src/Email/Tests.antt =====
-- The email service in the mode `both`, where the second file cannot be written.
use demo_t.Base.{false, none, some, [], refl}
use demo_t.Errors.Exceptions.{plain, ok, err}
use demo_t.Auth.Rows.{UserRegistrationInitiatedEvent}
use demo_t.Email.{
  Config, Servers, EmailService, Outbox, both, create_service, get_email_mode, transporter_for,
  initialize_transporter, storage_for,
}
use demo_t.Email.Sending.{handle_user_registration_initiated}
use demo_t.Email.Delivery.{Outcome, handle_user_registration_initiated-Outcome}

abbrev config : Config
config = record {
  email_mode = some "both";
  email_verification_url = some "http://shop/verify-email";
  smtp_host = some "smtp";
  smtp_port = some "587";
  smtp_user = some "user";
  smtp_password = some "secret";
  smtp_from_address = some "noreply@shop";
  smtp_from_name = some "Shop";
}

abbrev servers : Servers
servers = record {
  load_templates = ok (record { html = λ d. d.verification_url; text = λ d. d.verification_url });
  make_storage = ok tt;
  send_mail = λ _ _. ok tt;
  write_file = λ _. err (plain "ENOSPC");
}

abbrev service : EmailService
service = record {
  email_mode = both;
  transporter = some (record {
    host = some "smtp";
    port = some "587";
    secure = false;
    user = some "user";
    password = some "secret";
  });
  template = record { html = λ d. d.verification_url; text = λ d. d.verification_url };
}

abbrev event : UserRegistrationInitiatedEvent
event = record {
  email = "dan@shop";
  name = none;
  user_id = "4";
  verification_token = "v4";
  timestamp = 100;
  expiration_minutes = 60;
}

abbrev nothing : Outbox
nothing = record { sent = []; files = [] }

handle_user_registration_initiated-Outcome_example :
    Outcome config servers "2024-01-01T00:00:00.000Z" service event nothing (
      handle_user_registration_initiated config servers "2024-01-01T00:00:00.000Z" service event
        nothing)
unfolding create_service get_email_mode transporter_for initialize_transporter storage_for
handle_user_registration_initiated-Outcome_example =
    handle_user_registration_initiated-Outcome config servers "2024-01-01T00:00:00.000Z" service
      event nothing refl
