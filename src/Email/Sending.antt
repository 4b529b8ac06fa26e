-- ===== src/Email/Sending.antt =====
-- The sending of the verification mail, `sendVerificationEmail` of
-- apps/email-service/src/app/modules/email/email.service.ts, and the handler of the event,
-- modules/registration/registration-events.controller.ts.
use demo_t.Base.{String, Bool, true, false, Option, none, some, ◌∷◌, ◌===◌, ◌&&◌, if◌then◌else◌}
use demo_t.Errors.Exceptions.{plain, Result, ok, err}
use demo_t.Auth.Rows.{UserRegistrationInitiatedEvent}
use demo_t.Gateway.Http.{has_text}
use demo_t.Email.{
  Config, Servers, EmailService, Transporter, TemplateData, Mail, SavedFile, Outbox, Step, sends,
  saves, subject, html_file, text_file, and_then, done, text_of, ◌+++◌,
}

-- `iso` is the time as a text.
module _ (config : Config) (servers : Servers) (iso : String) (s : EmailService) where
  abbrev pub template_data : UserRegistrationInitiatedEvent → String → TemplateData
  template_data event base_url = record {
    name = event.name;
    verification_url = base_url +++ "?token=" +++ event.verification_token;
    expiration_minutes = event.expiration_minutes;
  }

  abbrev pub mail_for : UserRegistrationInitiatedEvent → TemplateData → Mail
  mail_for event fields = record {
    sender =
        "\""
        +++ text_of config.smtp_from_name
        +++ "\" <"
        +++ text_of config.smtp_from_address
        +++ ">";
    to = event.email;
    subject = subject;
    text = s.template.text fields;
    html = s.template.html fields;
  }

  unfoldable pub deliver : Option Transporter → Mail → Step
  deliver none mail o = (err (plain "Email transporter not initialized"), o)
  deliver (some transporter) mail o =
      done (servers.send_mail transporter mail) (record o { sent = mail ∷ o.sent }) o

  unfoldable pub send_if : Bool → Mail → Step
  send_if false mail o = (ok tt, o)
  send_if true mail o =
      if has_text config.smtp_from_address && has_text config.smtp_from_name
      then deliver s.transporter mail o
      else (
        err (
            plain
              "Email configuration incomplete: NX_PUBLIC_SMTP_FROM_ADDRESS and NX_PUBLIC_SMTP_FROM_NAME are required"),
        o,
      )

  unfoldable pub write : SavedFile → Step
  write f o = done (servers.write_file f) (record o { files = f ∷ o.files }) o

  -- `saveEmailToFile`
  unfoldable pub save_if : Bool → String → TemplateData → Step
  save_if false to fields o = (ok tt, o)
  save_if true to fields o =
      and_then (write (html_file iso to (s.template.html fields)) o)
        (write (text_file iso to (s.template.text fields)))

  unfoldable pub send_with_url : UserRegistrationInitiatedEvent → Option String → Step
  send_with_url event none o =
      (err (plain "NX_PUBLIC_EMAIL_VERIFICATION_URL environment variable is not configured"), o)
  send_with_url event (some base_url) o =
      if base_url === ""
      then (
        err (plain "NX_PUBLIC_EMAIL_VERIFICATION_URL environment variable is not configured"),
        o,
      )
      else (let fields = template_data event base_url in
          and_then (send_if (sends s.email_mode) (mail_for event fields) o)
            (save_if (saves s.email_mode) event.email fields))

  -- `sendVerificationEmail`, with the fields of the event.
  unfoldable pub send_verification_email : UserRegistrationInitiatedEvent → Step
  send_verification_email event = send_with_url event config.email_verification_url

-- What the handler tells the broker: `nack` with `requeue` puts the event back into the queue.
pub data Answer : Type 0 where
  ack requeue : Answer

abbrev pub answer : Result (Unit {0}) × Outbox → Answer × Outbox
answer (ok tt, o) = (ack, o)
answer (err e, o) = (requeue, o)

unfoldable pub handle_user_registration_initiated :
    Config
    → Servers
    → String
    → EmailService
    → UserRegistrationInitiatedEvent
    → Outbox
    → Answer × Outbox
handle_user_registration_initiated config servers iso s event o =
    answer (send_verification_email config servers iso s event o)
