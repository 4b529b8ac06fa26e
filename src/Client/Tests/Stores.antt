-- ===== src/Client/Tests/Stores.antt =====
-- A session that is lost and won back, and toasts on short runs.
use demo_t.Base.{true, false, none, some, ◌≡◌, refl, arith}
use demo_t.Client.Refresh
use demo_t.Client.Refresh.{for_request, threw, Manager, settle, take_off}
use demo_t.Client.Session.{Session, intercept}
use demo_t.Client.Session.Recovery.{lost, signed_in_again, lost-recovers}
use demo_t.Client.Toast.{
  ToastOptions, Toast, error, initial, show_toast, close_toast, reset, Reachable, start, shows,
  closes, resets,
}

-- Anna, user 4, is signed in.
abbrev anna : Session
anna = record {
  user_profile_data = some 4;
  is_loading = false;
  manager = demo_t.Client.Refresh.initial;
}

lost-recovers_example :
    ((lost 7 500 anna).user_profile_data ≡ none)
    × ((intercept (some 401) false 8 (lost 7 500 anna)).manager
        ≡ settle (threw 8 (some 500)) (lost 7 500 anna).manager)
    × ((intercept (some 401) false 8 (signed_in_again 7 500 anna 4 (some 900))).manager
        ≡ take_off (for_request 8) (signed_in_again 7 500 anna 4 (some 900)).manager)
lost-recovers_example = lost-recovers 7 500 anna 8 4 (some 900)

abbrev saved : ToastOptions
saved = record {
  message = "saved";
  variant = none;
  auto_hide_duration = none;
  action = none;
  on_close = some 3;
}

abbrev failed : ToastOptions
failed = record saved { message = "failed"; variant = some error }

-- The second toast is shown after the first one's reset.
abbrev one_by_one : Toast
one_by_one = show_toast failed (reset (close_toast (show_toast saved initial)))

-- The second toast is shown before the first one's reset, which then blanks it.
abbrev blanked : Toast
blanked = reset (show_toast failed (close_toast (show_toast saved initial)))

blanked-Reachable : Reachable true (some failed) blanked
unfolding show_toast close_toast reset
blanked-Reachable = resets (omega arith) (shows failed refl (closes (shows saved refl start)))

blanked-open : (blanked.is_open ≡ true) × (blanked.message ≡ "")
unfolding show_toast close_toast reset
blanked-open = (refl, refl)
