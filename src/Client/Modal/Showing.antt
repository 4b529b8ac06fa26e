-- ===== src/Client/Modal/Showing.antt =====
-- What an open modal shows.
use demo_t.Base.{ℕ, true, false, Option, none, some, ◌≡◌, refl, ◌<◌, arith}
use demo_t.Client.Modal.{
  ModalId, ModalOptions, no_options, Modal, show_modal, close_modal, accept_modal, reject_modal,
  reset, Reachable, start, shows, closes, accepts, rejects, resets,
}

abbrev pub ShowsLast : Option (ModalId × ModalOptions) → Modal → Type 0
ShowsLast none m = ⊥
ShowsLast (some (template, options)) m =
    (m.modal_template ≡ some template) × (m.modal_props ≡ options)

-- An open modal is the one shown last, and no reset is pending; a closed one is forgotten once its resets are
-- done, with its callbacks.
pub record IsTidy (last : Option (ModalId × ModalOptions)) (m : Modal) : Type 0 where
  pub open_shows : m.is_open ≡ true → (m.pending ≡ 0) × ShowsLast last m
  pub closed_blank :
      m.is_open ≡ false → m.pending ≡ 0 → (m.modal_template ≡ none) × (m.modal_props ≡ no_options)

-- A state that is closed while a reset is pending.
closing :
    {last : Option (ModalId × ModalOptions)} {m : Modal}
    → m.is_open ≡ false
    → 0 < m.pending
    → IsTidy last m
closing shut some_pending = record {
  open_shows = λ e. cc;
  closed_blank = λ _ e. absurd (omega arith);
}

pub modal-IsTidy :
    {last : Option (ModalId × ModalOptions)} {m : Modal} → Reachable last m → IsTidy last m
unfolding show_modal close_modal accept_modal reject_modal reset
modal-IsTidy start = record { open_shows = λ e. cc; closed_blank = λ _ _. (refl, refl) }
modal-IsTidy (shows template options settled r) = record {
  open_shows = λ _. (settled, (refl, refl));
  closed_blank = λ e. cc;
}
modal-IsTidy (closes r) = closing refl (omega arith)
modal-IsTidy (accepts result r) = closing refl (omega arith)
modal-IsTidy (rejects result r) = closing refl (omega arith)
modal-IsTidy (resets some_pending r) =
    let tidy = modal-IsTidy r in
    record {
      open_shows = λ e. absurd (pending_open (tidy.open_shows e).0 some_pending);
      closed_blank = λ _ _. (refl, refl);
    }
  where
    pending_open : {n : ℕ} → n ≡ 0 → 0 < n → ⊥
    pending_open e h = omega arith
