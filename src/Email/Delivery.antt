-- ===== src/Email/Delivery.antt =====
-- What becomes of a registration event: what was sent and written, and what the broker is told.
use demo_t.Base.{
  String, Bool, true, false, Option, none, some, ◌∷◌, ◌≡◌, refl, sym, subst, ◌∙◌, ◌⊎◌, inl, inr,
  ◌===◌, ◌&&◌, Bool-cases, if◌then◌else◌,
}
use demo_t.Errors.Exceptions.{Exception, plain, Result, ok, err}
use demo_t.Auth.Rows.{UserRegistrationInitiatedEvent}
use demo_t.Gateway.Http.{has_text}
use demo_t.Email.{
  Config, get_email_mode, sends, saves, Transporter, Mail, SavedFile, Outbox, EmailService, Servers,
  ◌>>=◌, initialize_transporter, transporter_for, storage_for, create_service, and_then,
}
use demo_t.Email.Promise.{
  wants_mail, wants_files, sends-wants_mail, saves-wants_files, promised_mail, promised_html,
  promised_text, mail_for-promised, html_file-promised, text_file-promised,
}
use demo_t.Email.Sending.{
  template_data, mail_for, deliver, send_if, write, save_if, send_with_url, send_verification_email,
  Answer, ack, requeue, answer, handle_user_registration_initiated,
}

bind_ok :
    {A B : Type 0} (m : Result A) (f : A → Result B) (b : B)
    → (m >>= f) ≡ ok b
    → (a : A) × (m ≡ ok a) × (f a ≡ ok b)
bind_ok (ok a) f b h = (a, refl, h)
bind_ok (err e) f b h = cc

ok_inj : {A : Type 0} {a b : A} → ok a ≡ ok b → a ≡ b
ok_inj h = cc

abbrev HasTransporter : EmailService → Type 0
HasTransporter s =
    sends s.email_mode ≡ true → (transporter : Transporter) × (s.transporter ≡ some transporter)

transporter_for-some :
    (t : Bool) (config : Config) (o : Option Transporter)
    → transporter_for t config ≡ ok o
    → t ≡ true
    → (transporter : Transporter) × (o ≡ some transporter)
unfolding transporter_for
transporter_for-some true config o h e =
    let (transporter, made, same) = bind_ok (initialize_transporter config) _ o h in
    (transporter, sym (ok_inj same))
transporter_for-some false config o h e = cc

-- A service that sends mails was built with a transporter.
create_service-HasTransporter :
    (config : Config) (servers : Servers) (s : EmailService)
    → create_service config servers ≡ ok s
    → HasTransporter s
unfolding create_service
create_service-HasTransporter config servers s h =
    let (o, made, rest) =
      bind_ok (transporter_for (sends (get_email_mode config.email_mode)) config) _ s h in
    let (u, stored, rest_) =
      bind_ok (storage_for (saves (get_email_mode config.email_mode)) servers) _ s rest in
    let (template, loaded, same) = bind_ok servers.load_templates _ s rest_ in
    subst HasTransporter (ok_inj same) (λ on. transporter_for-some _ config o made on)

module _ (config : Config) (servers : Servers) (iso : String) (s : EmailService)
    (event : UserRegistrationInitiatedEvent) (o : Outbox) where
  abbrev the_mail : String → Mail
  the_mail = promised_mail config iso s event

  abbrev html_of : String → SavedFile
  html_of = promised_html config iso s event

  abbrev text_of : String → SavedFile
  text_of = promised_text config iso s event

  abbrev pub mailed : String → Outbox
  mailed url = if wants_mail s.email_mode then record o { sent = the_mail url ∷ o.sent } else o

  abbrev pub half_saved : String → Outbox
  half_saved url = record (mailed url) { files = html_of url ∷ (mailed url).files }

  -- The mail, in a mode that sends, and the two files, in a mode that saves.
  abbrev pub delivered : String → Outbox
  delivered url =
      if wants_files s.email_mode
      then record (half_saved url) { files = text_of url ∷ (half_saved url).files }
      else mailed url

  -- Each outcome with its reason.
  pub data Outcome : Answer × Outbox → Type 0 where
    all_done :
        (url : String) → config.email_verification_url ≡ some url → Outcome (ack, delivered url)
    no_url : has_text config.email_verification_url ≡ false → Outcome (requeue, o)
    no_sender :
        wants_mail s.email_mode ≡ true
        → (has_text config.smtp_from_address && has_text config.smtp_from_name) ≡ false
        → Outcome (requeue, o)
    not_sent :
        (url : String) (transporter : Transporter) (e : Exception)
        → config.email_verification_url ≡ some url
        → s.transporter ≡ some transporter
        → wants_mail s.email_mode ≡ true
        → servers.send_mail transporter (the_mail url) ≡ err e
        → Outcome (requeue, o)
    not_saved :
        (url : String) (e : Exception)
        → config.email_verification_url ≡ some url
        → wants_files s.email_mode ≡ true
        → servers.write_file (html_of url) ≡ err e
        → Outcome (requeue, mailed url)
    half_done :
        (url : String) (e : Exception)
        → config.email_verification_url ≡ some url
        → wants_files s.email_mode ≡ true
        → servers.write_file (text_of url) ≡ err e
        → Outcome (requeue, half_saved url)

  Result-cases : (r : Result (Unit {0})) → (r ≡ ok tt) ⊎ ((e : Exception) × (r ≡ err e))
  Result-cases (ok tt) = inl refl
  Result-cases (err e) = inr (e, refl)

  send_if-Outcome :
      (url : String)
      → HasTransporter s
      → config.email_verification_url ≡ some url
      → (send_if config servers iso s (wants_mail s.email_mode) (the_mail url) o
          ≡ (ok tt, mailed url))
        ⊎ ((e : Exception) × (send_if config servers iso s
                (wants_mail s.email_mode)
                (the_mail url)
                o
              ≡ (err e, o))
            × Outcome (requeue, o))
  unfolding send_if deliver
  send_if-Outcome url has set = elim (Bool-cases (wants_mail s.email_mode)) [
    | inr off ↦ inl (rw off refl)
    | inl on ↦
        elim (Bool-cases (has_text config.smtp_from_address && has_text config.smtp_from_name)) [
          | inr nobody ↦ inr (
            plain
                "Email configuration incomplete: NX_PUBLIC_SMTP_FROM_ADDRESS and NX_PUBLIC_SMTP_FROM_NAME are required",
            rw (on, nobody) refl,
            no_sender on nobody,
          )
          | inl somebody ↦
              let (transporter, there) = has (sends-wants_mail s.email_mode ∙ on) in
              elim (Result-cases (servers.send_mail transporter (the_mail url))) [
                | inl gone ↦ inl (rw (on, somebody, there, gone) refl)
                | inr (e, failed) ↦ inr (
                  e,
                  rw (on, somebody, there, failed) refl,
                  not_sent url transporter e set there on failed,
                )
              ]
        ]
  ]

  -- `saveEmailToFile` for the event.
  abbrev saving : String → Result (Unit {0}) × Outbox
  saving url =
      save_if config servers iso s (wants_files s.email_mode) event.email
        (template_data config servers iso s event url) (mailed url)

  save_if-Outcome :
      (url : String)
      → config.email_verification_url ≡ some url
      → (saving url ≡ (ok tt, delivered url))
        ⊎ ((e : Exception) × (q : Outbox) × (saving url ≡ (err e, q)) × Outcome (requeue, q))
  unfolding save_if write
  save_if-Outcome url set = elim (Bool-cases (wants_files s.email_mode)) [
    | inr off ↦ inl (rw off refl)
    | inl on ↦
        let html = html_file-promised config servers iso s event url in
        let text = text_file-promised config servers iso s event url in
        elim (Result-cases (servers.write_file (html_of url))) [
          | inr (e, failed) ↦
              inr (e, mailed url, rw (on, html, failed) refl, not_saved url e set on failed)
          | inl saved ↦ elim (Result-cases (servers.write_file (text_of url))) [
            | inr (e, failed) ↦ inr (
              e,
              half_saved url,
              rw (on, html, saved, text, failed) refl,
              half_done url e set on failed,
            )
            | inl both_saved ↦ inl (rw (on, html, saved, text, both_saved) refl)
          ]
        ]
  ]

  with_url-Outcome :
      (url : String)
      → HasTransporter s
      → config.email_verification_url ≡ some url
      → Outcome (
          answer (
            and_then
              (send_if config servers iso s
                (sends s.email_mode)
                (mail_for config servers iso s event (template_data config servers iso s event url))
                o)
              (save_if config servers iso s
                (saves s.email_mode)
                event.email
                (template_data config servers iso s event url))))
  with_url-Outcome url has there =
      rw
        (
          sends-wants_mail s.email_mode,
          saves-wants_files s.email_mode,
          mail_for-promised config servers iso s event url,
        )
        (elim (send_if-Outcome url has there) [
          | inr (e, failed, outcome) ↦ rw failed outcome
          | inl mailed_it ↦ elim (save_if-Outcome url there) [
            | inl saved_it ↦ rw (mailed_it, saved_it) (all_done url there)
            | inr (e, q, failed, outcome) ↦ rw (mailed_it, failed) outcome
          ]
        ])

  url-Outcome :
      (found : Option String)
      → HasTransporter s
      → config.email_verification_url ≡ found
      → Outcome (answer (send_with_url config servers iso s event found o))
  unfolding send_with_url
  url-Outcome none has there = no_url (rw there refl)
  url-Outcome (some url) has there = elim (Bool-cases (url === "")) [
    | inl empty ↦ rw empty (no_url (rw (there, empty) refl))
    | inr filled ↦ rw filled (with_url-Outcome url has there)
  ]

-- A service that was built acknowledges a registration event only once everything its mode asks for is done:
-- the mail was sent to the event's address, whose templates were filled with the link that carries the event's
-- token, and its two files were written, each with the rendered mail under its metadata. Otherwise the event goes back into the queue, for one of the reasons listed, and what had been sent or written before
-- the failure stays.
pub handle_user_registration_initiated-Outcome :
    (config : Config) (servers : Servers) (iso : String) (s : EmailService)
    (event : UserRegistrationInitiatedEvent) (o : Outbox)
    → create_service config servers ≡ ok s
    → Outcome config servers iso s event o
        (handle_user_registration_initiated config servers iso s event o)
unfolding handle_user_registration_initiated send_verification_email
handle_user_registration_initiated-Outcome config servers iso s event o built =
    url-Outcome config servers iso s event o config.email_verification_url
      (create_service-HasTransporter config servers s built) refl
