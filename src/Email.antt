-- ===== src/Email.antt =====
-- The email service, apps/email-service/src/app/modules/email/email.service.ts. Nodemailer, Handlebars, the
-- file system and the broker are arguments; what was sent and written is the state.
pub mod Sending
pub mod Promise
pub mod Delivery
mod Tests
use mathlib.Core.Option
use Prim.Native.String
use demo_t.Base.{
  ℕ, String, Bool, true, false, not, Option, none, some, List, [], ◌∷◌, ◌++◌, ◌==◌, ◌===◌, ◌&&◌,
  ◌||◌, leb, map, codes, if◌then◌else◌,
}
use demo_t.Errors.Exceptions.{Exception, plain, Result, ok, err}
use demo_t.Auth.Rows.{UserRegistrationInitiatedEvent}
use demo_t.Gateway.Http.{has_text}

-- The variables that the service reads; `none` is one that is not set.
pub record Config : Type 0 where
  pub email_mode : Option String
  pub email_verification_url : Option String
  pub smtp_host : Option String
  pub smtp_port : Option String
  pub smtp_user : Option String
  pub smtp_password : Option String
  pub smtp_from_address : Option String
  pub smtp_from_name : Option String

pub data EmailMode : Type 0 where
  send file both : EmailMode

-- A missing, empty or unknown mode is `send`.
unfoldable pub get_email_mode : Option String → EmailMode
get_email_mode none = send
get_email_mode (some mode) =
    if mode === "file" then file else if mode === "both" then both else send

abbrev pub sends : EmailMode → Bool
sends send = true
sends file = false
sends both = true

abbrev pub saves : EmailMode → Bool
saves send = false
saves file = true
saves both = true

-- The options of the transporter. `secure` is `port === 465`, which no text equals.
pub record Transporter : Type 0 where
  pub host : Option String
  pub port : Option String
  pub secure : Bool
  pub user : Option String
  pub password : Option String

pub record TemplateData : Type 0 where
  pub name : Option String
  pub verification_url : String
  pub expiration_minutes : ℕ

pub record TemplateSet : Type 0 where
  pub html : TemplateData → String
  pub text : TemplateData → String

pub record Mail : Type 0 where
  pub sender : String
  pub to : String
  pub subject : String
  pub text : String
  pub html : String

pub record SavedFile : Type 0 where
  pub name : List ℕ
  pub content : String

-- What left the service, the latest first.
pub record Outbox : Type 0 where
  pub sent : List Mail
  pub files : List SavedFile

pub record EmailService : Type 0 where
  pub email_mode : EmailMode
  pub transporter : Option Transporter
  pub template : TemplateSet

-- The servers' answers: the templates on disk, the storage directory, a mail, and a file.
pub record Servers : Type 0 where
  pub load_templates : Result TemplateSet
  pub make_storage : Result (Unit {0})
  pub send_mail : Transporter → Mail → Result (Unit {0})
  pub write_file : SavedFile → Result (Unit {0})

infixl 5 ◌>>=◌
abbrev pub ◌>>=◌ : {A B : Type 0} → Result A → (A → Result B) → Result B
ok a >>= f = f a
err e >>= f = err e

unfoldable pub initialize_transporter : Config → Result Transporter
initialize_transporter config =
    if has_text config.smtp_host
      && (has_text config.smtp_port && (has_text config.smtp_user && has_text config.smtp_password))
    then ok (record {
      host = config.smtp_host;
      port = config.smtp_port;
      secure = false;
      user = config.smtp_user;
      password = config.smtp_password;
    })
    else err (
        plain
          "SMTP configuration incomplete: NX_PUBLIC_SMTP_HOST, NX_PUBLIC_SMTP_PORT, NX_PUBLIC_SMTP_USER, and NX_PUBLIC_SMTP_PASSWORD are required")

unfoldable pub transporter_for : Bool → Config → Result (Option Transporter)
transporter_for true config = initialize_transporter config >>= λ transporter. ok (some transporter)
transporter_for false config = ok none

unfoldable pub storage_for : Bool → Servers → Result (Unit {0})
storage_for true servers = servers.make_storage
storage_for false servers = ok tt

-- The constructor of `EmailService`.
unfoldable pub create_service : Config → Servers → Result EmailService
create_service config servers =
    let mode = get_email_mode config.email_mode in
    transporter_for (sends mode) config >>= λ transporter. storage_for (saves mode) servers >>= λ _.
    servers.load_templates >>= λ template.
    ok (record { email_mode = mode; transporter = transporter; template = template })

abbrev pub subject : String
subject = "Verify Your Email - Demo T3"

abbrev pub template_name : String
template_name = "verification-email"

-- A file that a mail was saved to: `/[^a-zA-Z0-9@.-]/g` becomes `_`.
abbrev is_kept : ℕ → Bool
is_kept c =
    leb b'a' c && leb c b'z'
    || (leb b'A' c && leb c b'Z'
        || (leb b'0' c && leb c b'9' || (c == b'@' || (c == b'.' || c == b'-'))))

unfoldable pub sanitized : List ℕ → List ℕ
sanitized = map (λ c. if is_kept c then c else b'_')

-- `toISOString().replace(/[:.]/g, '-')`
unfoldable pub file_timestamp : String → List ℕ
file_timestamp iso = map (λ c. if c == b':' || c == b'.' then b'-' else c) (codes iso)

unfoldable pub base_filename : String → String → List ℕ
unfolding sanitized file_timestamp
base_filename iso to =
    file_timestamp iso ++ (b'_' ∷ (sanitized (codes to) ++ (b'_' ∷ codes template_name)))

infixr 60 ◌+++◌
abbrev pub ◌+++◌ : String → String → String
◌+++◌ = String.◌++◌

unfoldable pub html_file : String → String → String → SavedFile
unfolding base_filename
html_file iso to content = record {
  name = base_filename iso to ++ codes ".html";
  content =
      "<!--\n        To: " +++ to +++ "\n        Subject: " +++ subject +++ "\n        Template: "
      +++ template_name +++ "\n        Timestamp: " +++ iso +++ "\n        -->\n        \n        "
      +++ content;
}

unfoldable pub text_file : String → String → String → SavedFile
unfolding base_filename
text_file iso to content = record {
  name = base_filename iso to ++ codes ".txt";
  content =
      "To: " +++ to +++ "\n        Subject: " +++ subject +++ "\n        Template: "
      +++ template_name +++ "\n        Timestamp: " +++ iso
      +++ "\n        ======================================================================\n        \n        "
      +++ content;
}

-- A step that may throw, on the outbox; what was sent or written before a throw stays.
abbrev pub Step : Type 0
Step = Outbox → Result (Unit {0}) × Outbox

abbrev pub done : Result (Unit {0}) → Outbox → Outbox → Result (Unit {0}) × Outbox
done (ok tt) next o = (ok tt, next)
done (err e) next o = (err e, o)

abbrev pub and_then : Result (Unit {0}) × Outbox → Step → Result (Unit {0}) × Outbox
and_then (ok tt, o) next = next o
and_then (err e, o) next = (err e, o)

abbrev pub text_of : Option String → String
text_of none = "undefined"
text_of (some s) = s
