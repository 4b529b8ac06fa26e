-- ===== src/Client/Toast/Showing.antt =====
-- What an open toast shows.
use demo_t.Base.{true, false, Option, none, some, ◌≡◌}
use demo_t.Client.Toast.{info, toast_hide_duration_ms, ToastOptions, Toast, or_default}

-- The fields are those of the options, with the defaults of what was left out.
abbrev pub Shows : ToastOptions → Toast → Type 0
Shows options t =
    (t.message ≡ options.message)
    × (t.variant ≡ or_default options.variant info)
    × (t.auto_hide_duration ≡ or_default options.auto_hide_duration toast_hide_duration_ms)
    × (t.action ≡ options.action)
    × (t.on_close ≡ options.on_close)

abbrev pub ShowsLast : Option ToastOptions → Toast → Type 0
ShowsLast none t = ⊥
ShowsLast (some options) t = Shows options t

abbrev pub IsBlank : Toast → Type 0
IsBlank t = (t.message ≡ "") × (t.action ≡ none) × (t.on_close ≡ none)

-- An open toast shows what was shown last, and no reset is pending; a closed one is blank once its resets are
-- done.
pub record IsTidy (last : Option ToastOptions) (t : Toast) : Type 0 where
  pub open_shows : t.is_open ≡ true → (t.pending ≡ 0) × ShowsLast last t
  pub closed_blank : t.is_open ≡ false → t.pending ≡ 0 → IsBlank t
