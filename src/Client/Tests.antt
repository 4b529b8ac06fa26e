-- ===== src/Client/Tests.antt =====
-- The refresh manager on short runs, and the cart.
mod Stores
use demo_t.Base.{true, false, not, [], ◌∷◌, ◌≡◌, refl, all, keep, length, ltb}
use demo_t.Base.{ℕ, List, none, take, drop, arith, ◌⊎◌, ◌*◌, ◌+◌}
use demo_t.Errors.Exceptions.{ok}
use demo_t.Client.Cart.{
  Arithmetic, Product, CartItem, already_in_cart, not_in_cart, changed, refused, is_product_in_cart,
  add_product_to_cart, remove_product_from_cart, total_price,
}
use demo_t.Client.Cart.Distinct.{
  is_distinct, others, add_product_to_cart-once, remove_product_from_cart-gone,
}
use demo_t.Gateway.Products.{ProductDetailed, Collection}
use demo_t.Client.Products.{load_all}
use demo_t.Client.Products.Pages.{IsCollection, IsComplete, load_all-IsComplete}
use demo_t.Client.Refresh.{
  for_request, proactive, Manager, initial, handle_token_refresh, on_timer, on_success, on_failure,
  start_proactive_refresh, stop_proactive_refresh, Reachable, start, asks, succeeds, fails, fires,
  starts,
}
use demo_t.Client.Refresh.Settlement.{
  IsCoherent, is_rejected, Reachable-IsCoherent, Reachable-never_rejected,
}
use demo_t.Client.Refresh.Waiting.{
  IsAccounted, settlements, Reachable-IsAccounted, Reachable-settled,
}

-- Request 7 starts a refresh, request 8 waits, and the refresh fails.
abbrev waiting : Manager
waiting = handle_token_refresh 8 (handle_token_refresh 7 initial)

abbrev failed : Manager
failed = on_failure (for_request 7) 500 (record waiting { in_flight = [] })

failed-Reachable : Reachable false (8 ∷ 7 ∷ []) failed
unfolding handle_token_refresh
failed-Reachable = fails [] [] (for_request 7) 500 refl (asks 8 (asks 7 start))

Reachable-IsCoherent_example : IsCoherent failed
Reachable-IsCoherent_example = Reachable-IsCoherent failed-Reachable

Reachable-never_rejected_example : all (λ o. not (is_rejected o)) failed.outcomes ≡ true
Reachable-never_rejected_example = Reachable-never_rejected failed-Reachable

Reachable-IsAccounted_example : IsAccounted (8 ∷ 7 ∷ []) failed
Reachable-IsAccounted_example = Reachable-IsAccounted failed-Reachable

Reachable-settled_example :
    length (keep (λ r. ltb r 8) (8 ∷ 7 ∷ [])) ≡ settlements (λ r. ltb r 8) failed.outcomes
unfolding on_failure handle_token_refresh
Reachable-settled_example = Reachable-settled failed-Reachable refl (λ r. ltb r 8)

-- A request that comes while a refresh ahead of time is in flight waits on after it was answered.
abbrev ahead : Manager
ahead =
    handle_token_refresh 7 (on_timer (record (start_proactive_refresh 900 initial) { timers = [] }))

abbrev stranded : Manager
stranded = on_success proactive 900 (record ahead { in_flight = [] })

stranded-Reachable : Reachable true (7 ∷ []) stranded
unfolding handle_token_refresh on_timer
stranded-Reachable =
    succeeds [] [] proactive 900 refl
      (asks 7 (fires [] [] (record { handle = 0; delay = 890000 }) refl refl (starts 900 start)))

stranded-waits :
    (stranded.is_refreshing ≡ false) × (stranded.in_flight ≡ []) × (stranded.failed_queue ≡ 7 ∷ [])
unfolding handle_token_refresh on_timer on_success
stranded-waits = (refl, refl, refl)

-- Stopping clears only the timeout that was set last.
abbrev two_timers : Manager
two_timers =
    on_success (for_request 7) 900
      (record (handle_token_refresh 7 (start_proactive_refresh 900 initial)) { in_flight = [] })

stop_proactive_refresh-leaves : length (stop_proactive_refresh two_timers).timers ≡ 1
unfolding handle_token_refresh on_success
stop_proactive_refresh-leaves = refl

abbrev native : Arithmetic ℕ
native = record { add = λ x y. x + y; mul = λ x y. x * y; zero = 0; one = 1 }

abbrev mug : Product ℕ
mug = record { id = "p3"; price = 12 }

abbrev cart : List (CartItem ℕ)
cart = record { product = record { id = "p5"; price = 20 }; quantity = 2 } ∷ []

add_product_to_cart-once_example :
    ((is_product_in_cart mug cart ≡ true)
      × (add_product_to_cart native mug cart ≡ refused already_in_cart))
    ⊎ ((is_product_in_cart mug cart ≡ false)
        × ((next : List (CartItem ℕ)) × (add_product_to_cart native mug cart ≡ changed next)
            × (is_distinct next ≡ true)
            × (is_product_in_cart mug next ≡ true)
            × (total_price native next ≡ total_price native cart + mug.price * 1)))
add_product_to_cart-once_example = add_product_to_cart-once native mug cart refl

remove_product_from_cart-gone_example :
    ((is_product_in_cart mug cart ≡ false)
      × (remove_product_from_cart mug cart ≡ refused not_in_cart))
    ⊎ ((is_product_in_cart mug cart ≡ true)
        × ((next : List (CartItem ℕ)) × (remove_product_from_cart mug cart ≡ changed next)
            × (remove_product_from_cart mug next ≡ refused not_in_cart)
            × (next ≡ others mug.id cart)))
remove_product_from_cart-gone_example = remove_product_from_cart-gone mug cart refl

-- Twelve mugs.
abbrev shelf : List (ProductDetailed ℕ)
shelf = dozen
  where
    mug_page : ProductDetailed ℕ
    mug_page = record {
      product = record {
        id = "p3";
        name = "mug";
        price = 12;
        tags = none;
        timestamp = "";
        picture = "";
        company = "";
        about = none;
      };
      specification = none;
      condition = "new";
      seller = none;
      warranty = none;
      color = none;
    }

    dozen : List (ProductDetailed ℕ)
    dozen =
        mug_page ∷ mug_page ∷ mug_page ∷ mug_page ∷ mug_page ∷ mug_page ∷ mug_page ∷ mug_page
        ∷ mug_page ∷ mug_page ∷ mug_page ∷ mug_page ∷ []

abbrev catalogue : Collection ℕ
catalogue = record {
  count = ok (length shelf);
  find = λ offset limit sort. ok (take limit (drop offset shelf));
  find_one = λ id. ok none;
}

catalogue-IsCollection : IsCollection shelf catalogue
catalogue-IsCollection = record { counts = refl; finds = λ offset limit. refl }

load_all-IsComplete_example : IsComplete shelf (load_all catalogue 1)
load_all-IsComplete_example =
    load_all-IsComplete shelf catalogue catalogue-IsCollection 1 (omega arith) (omega arith)
