-- ===== src/Client/Modal.antt =====
-- apps/client-mx/src/app/store/modal-manager/modal-manager.ts. The callbacks, the payloads and the results are
-- numbers; no callback calls the manager. A timeout that is set and has not fired is counted.
pub mod Showing
use demo_t.Base.{ℕ, Bool, true, false, Option, none, some, List, [], ◌∷◌, ◌≡◌, ◌+◌, ◌-◌, ◌<◌}

pub data ModalId : Type 0 where
  login_modal signup_modal : ModalId

-- `ModalOptions`; `none` is an option that is left out.
pub record ModalOptions : Type 0 where
  pub payload : Option ℕ
  pub on_close : Option ℕ
  pub on_accept : Option ℕ
  pub on_reject : Option ℕ

abbrev pub no_options : ModalOptions
no_options = record { payload = none; on_close = none; on_accept = none; on_reject = none }

-- A call of a callback, with a result where the callback takes one.
pub data Call : Type 0 where
  plain_call : ℕ → Call
  with_result : ℕ → Option ℕ → Call

-- The manager's fields, the callbacks that it called, the latest first, and the resets that are pending.
pub record Modal : Type 0 where
  pub is_open : Bool
  pub modal_template : Option ModalId
  pub modal_props : ModalOptions
  pub called : List Call
  pub pending : ℕ

abbrev pub initial : Modal
initial = record {
  is_open = false;
  modal_template = none;
  modal_props = no_options;
  called = [];
  pending = 0;
}

unfoldable pub show_modal : ModalId → ModalOptions → Modal → Modal
show_modal template options m = record m {
  modal_template = some template;
  modal_props = options;
  is_open = true;
}

abbrev notify : Option ℕ → (ℕ → Call) → List Call → List Call
notify none call called = called
notify (some f) call called = call f ∷ called

-- `closeModal`, which sets the timeout.
unfoldable pub close_modal : Modal → Modal
close_modal m = record m {
  called = notify m.modal_props.on_close plain_call m.called;
  is_open = false;
  pending = m.pending + 1;
}

-- The callback of the timeout, 300 ms later.
unfoldable pub reset : Modal → Modal
reset m = record m { modal_template = none; modal_props = no_options; pending = m.pending - 1 }

unfoldable pub accept_modal : Option ℕ → Modal → Modal
accept_modal result m =
    close_modal
      (record m { called = notify m.modal_props.on_accept (λ f. with_result f result) m.called })

unfoldable pub reject_modal : Option ℕ → Modal → Modal
reject_modal result m =
    close_modal
      (record m { called = notify m.modal_props.on_reject (λ f. with_result f result) m.called })

-- The states that the manager reaches, with the modal shown last, where no modal is shown while a reset is
-- pending.
pub data Reachable : Option (ModalId × ModalOptions) → Modal → Type 0 where
  start : Reachable none initial
  shows :
      {last : Option (ModalId × ModalOptions)} {m : Modal} (template : ModalId)
      (options : ModalOptions)
      → m.pending ≡ 0
      → Reachable last m
      → Reachable (some (template, options)) (show_modal template options m)
  closes :
      {last : Option (ModalId × ModalOptions)} {m : Modal}
      → Reachable last m
      → Reachable last (close_modal m)
  accepts :
      {last : Option (ModalId × ModalOptions)} {m : Modal} (result : Option ℕ)
      → Reachable last m
      → Reachable last (accept_modal result m)
  rejects :
      {last : Option (ModalId × ModalOptions)} {m : Modal} (result : Option ℕ)
      → Reachable last m
      → Reachable last (reject_modal result m)
  resets :
      {last : Option (ModalId × ModalOptions)} {m : Modal}
      → 0 < m.pending
      → Reachable last m
      → Reachable last (reset m)
