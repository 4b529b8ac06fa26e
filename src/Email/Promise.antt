-- ===== src/Email/Promise.antt =====
-- What a registration event promises: the mail with its link, and the two files.
use demo_t.Base.{
  ℕ, String, Bool, true, false, Option, none, some, List, ◌∷◌, ◌++◌, ◌≡◌, refl, ◌==◌, ◌||◌, map,
  codes, if◌then◌else◌,
}
use demo_t.Auth.Rows.{UserRegistrationInitiatedEvent}
use demo_t.Email.{
  Config, EmailMode, send, file, both, sends, saves, TemplateData, Mail, SavedFile, EmailService,
  Servers, html_file, text_file, base_filename, file_timestamp, sanitized, text_of, ◌+++◌,
}
use demo_t.Email.Sending.{template_data, mail_for}

-- The modes that send and those that save.
abbrev pub wants_mail : EmailMode → Bool
wants_mail send = true
wants_mail file = false
wants_mail both = true

abbrev pub wants_files : EmailMode → Bool
wants_files send = false
wants_files file = true
wants_files both = true

pub sends-wants_mail : (mode : EmailMode) → sends mode ≡ wants_mail mode
sends-wants_mail send = refl
sends-wants_mail file = refl
sends-wants_mail both = refl

pub saves-wants_files : (mode : EmailMode) → saves mode ≡ wants_files mode
saves-wants_files send = refl
saves-wants_files file = refl
saves-wants_files both = refl

abbrev or_undefined : Option String → String
or_undefined none = "undefined"
or_undefined (some text) = text

or_undefined-text_of : (o : Option String) → text_of o ≡ or_undefined o
or_undefined-text_of none = refl
or_undefined-text_of (some text) = refl

-- The time and the recipient, with `_` for what a file name does not have, and the template.
abbrev file_name : String → String → List ℕ
file_name iso to =
    map (λ c. if c == b':' || c == b'.' then b'-' else c) (codes iso)
    ++ (b'_' ∷ (sanitized (codes to) ++ (b'_' ∷ codes "verification-email")))

module _ (config : Config) (iso : String) (s : EmailService)
    (event : UserRegistrationInitiatedEvent) where
  -- What the templates are filled with: the link carries the event's token.
  abbrev pub fields : String → TemplateData
  fields url = record {
    name = event.name;
    verification_url = url +++ "?token=" +++ event.verification_token;
    expiration_minutes = event.expiration_minutes;
  }

  abbrev pub promised_mail : String → Mail
  promised_mail url = record {
    sender =
        "\""
        +++ or_undefined config.smtp_from_name
        +++ "\" <"
        +++ or_undefined config.smtp_from_address
        +++ ">";
    to = event.email;
    subject = "Verify Your Email - Demo T3";
    text = s.template.text (fields url);
    html = s.template.html (fields url);
  }

  -- The mail as a file, under its metadata.
  abbrev pub promised_html : String → SavedFile
  promised_html url = record {
    name = file_name iso event.email ++ codes ".html";
    content =
        "<!--\n        To: "
        +++ event.email
        +++ "\n        Subject: "
        +++ "Verify Your Email - Demo T3"
        +++ "\n        Template: "
        +++ "verification-email"
        +++ "\n        Timestamp: "
        +++ iso
        +++ "\n        -->\n        \n        "
        +++ s.template.html (fields url);
  }

  abbrev pub promised_text : String → SavedFile
  promised_text url = record {
    name = file_name iso event.email ++ codes ".txt";
    content =
        "To: "
        +++ event.email
        +++ "\n        Subject: "
        +++ "Verify Your Email - Demo T3"
        +++ "\n        Template: "
        +++ "verification-email"
        +++ "\n        Timestamp: "
        +++ iso
        +++ "\n        ======================================================================\n        \n        "
        +++ s.template.text (fields url);
  }

module _ (config : Config) (servers : Servers) (iso : String) (s : EmailService)
    (event : UserRegistrationInitiatedEvent) (url : String) where
  abbrev filled : TemplateData
  filled = template_data config servers iso s event url

  pub mail_for-promised :
      mail_for config servers iso s event filled ≡ promised_mail config iso s event url
  mail_for-promised =
      rw (or_undefined-text_of config.smtp_from_name, or_undefined-text_of config.smtp_from_address)
        refl

  pub html_file-promised :
      html_file iso event.email (s.template.html filled) ≡ promised_html config iso s event url
  unfolding html_file base_filename file_timestamp
  html_file-promised = refl

  pub text_file-promised :
      text_file iso event.email (s.template.text filled) ≡ promised_text config iso s event url
  unfolding text_file base_filename file_timestamp
  text_file-promised = refl
