-- ===== src/Client/Toast.antt =====
-- apps/client-mx/src/app/store/toast-manager/toast-manager.ts. The callbacks and the React elements are
-- numbers; a timeout that is set and has not fired is counted.
pub mod Showing
use demo_t.Base.{
  ℕ, String, Bool, true, false, Option, none, some, List, [], ◌∷◌, ◌≡◌, ◌+◌, ◌-◌, ◌<◌,
}

pub data ToastVariant : Type 0 where
  success error info warning : ToastVariant

abbrev pub toast_hide_duration_ms : ℕ
toast_hide_duration_ms = 5000

-- `ToastOptions`; `none` is an option that is left out.
pub record ToastOptions : Type 0 where
  pub message : String
  pub variant : Option ToastVariant
  pub auto_hide_duration : Option ℕ
  pub action : Option ℕ
  pub on_close : Option ℕ

-- The manager's fields, the callbacks that it called, the latest first, and the resets that are pending.
pub record Toast : Type 0 where
  pub is_open : Bool
  pub message : String
  pub variant : ToastVariant
  pub auto_hide_duration : ℕ
  pub action : Option ℕ
  pub on_close : Option ℕ
  pub called : List ℕ
  pub pending : ℕ

abbrev pub initial : Toast
initial = record {
  is_open = false;
  message = "";
  variant = info;
  auto_hide_duration = toast_hide_duration_ms;
  action = none;
  on_close = none;
  called = [];
  pending = 0;
}

abbrev pub or_default {ℓ} : {A : Type ℓ} → Option A → A → A
or_default none other = other
or_default (some a) other = a

unfoldable pub show_toast : ToastOptions → Toast → Toast
show_toast options t = record t {
  message = options.message;
  variant = or_default options.variant info;
  auto_hide_duration = or_default options.auto_hide_duration toast_hide_duration_ms;
  action = options.action;
  on_close = options.on_close;
  is_open = true;
}

abbrev call : Option ℕ → List ℕ → List ℕ
call none called = called
call (some f) called = f ∷ called

-- `closeToast`, which sets the timeout.
unfoldable pub close_toast : Toast → Toast
close_toast t = record t {
  is_open = false;
  called = call t.on_close t.called;
  pending = t.pending + 1;
}

-- The callback of the timeout, 300 ms later.
unfoldable pub reset : Toast → Toast
reset t = record t {
  message = "";
  variant = info;
  auto_hide_duration = toast_hide_duration_ms;
  action = none;
  on_close = none;
  pending = t.pending - 1;
}

-- The states that the manager reaches, with the options shown last, where the flag says whether a toast may be
-- shown while a reset is pending.
pub data Reachable (early : Bool) : Option ToastOptions → Toast → Type 0 where
  start : Reachable early none initial
  shows :
      {last : Option ToastOptions} {t : Toast} (options : ToastOptions)
      → early ≡ true
      → Reachable early last t
      → Reachable early (some options) (show_toast options t)
  shows_settled :
      {last : Option ToastOptions} {t : Toast} (options : ToastOptions)
      → t.pending ≡ 0
      → Reachable early last t
      → Reachable early (some options) (show_toast options t)
  closes :
      {last : Option ToastOptions} {t : Toast}
      → Reachable early last t
      → Reachable early last (close_toast t)
  resets :
      {last : Option ToastOptions} {t : Toast}
      → 0 < t.pending
      → Reachable early last t
      → Reachable early last (reset t)
