-- ===== src/Client/Cart/Distinct.antt =====
-- A cart holds a product once.
use demo_t.Base.{
  Bool, true, false, not, List, [], ◌∷◌, ◌++◌, ◌≡◌, refl, ◌&&◌, eq_iff, String, find, keep, ◌===◌,
  is_some, arith, if◌then◌else◌, Bool-cases, ◌⊎◌, inl, inr,
}
use demo_t.Client.Cart.{
  Arithmetic, Product, CartItem, already_in_cart, not_in_cart, changed, refused, is_item,
  is_product_in_cart, remove_first, add_product_to_cart, remove_product_from_cart, price_from,
  total_price,
}

module _ {Number : Type 0} where
  abbrev pub is_distinct : List (CartItem Number) → Bool
  is_distinct [] = true
  is_distinct (x ∷ cart) = not (is_some (find (is_item x.product.id) cart)) && is_distinct cart

  found-append :
      (id : String) (cart : List (CartItem Number)) (x : CartItem Number)
      → is_some (find (is_item id) (cart ++ x ∷ []))
        ≡ (if is_some (find (is_item id) cart) then true else is_item id x)
  found-append id [] x = ground arith
  found-append id (y ∷ cart) x = ground (arith, found-append id cart x)

  is_distinct-append :
      (cart : List (CartItem Number)) (x : CartItem Number)
      → is_distinct cart ≡ true
      → is_some (find (is_item x.product.id) cart) ≡ false
      → is_distinct (cart ++ x ∷ []) ≡ true
  is_distinct-append [] x h k = refl
  is_distinct-append (y ∷ cart) x h k = ground (
    arith,
    eq_iff x.product.id y.product.id,
    eq_iff y.product.id x.product.id,
    found-append y.product.id cart x,
    is_distinct-append cart x,
  )

  gone :
      (id : String) (cart : List (CartItem Number))
      → is_distinct cart ≡ true
      → is_some (find (is_item id) (remove_first id cart)) ≡ false
  gone id [] h = refl
  gone id (y ∷ cart) h = ground (arith, eq_iff y.product.id id, gone id cart)

  -- The items of the other products, in their order.
  abbrev pub others : String → List (CartItem Number) → List (CartItem Number)
  others id cart = keep (λ x. not (x.product.id === id)) cart

  others-absent :
      (id : String) (cart : List (CartItem Number))
      → is_some (find (is_item id) cart) ≡ false
      → others id cart ≡ cart
  others-absent id [] h = refl
  others-absent id (y ∷ cart) h = ground (arith, others-absent id cart)

  remove_first-others :
      (id : String) (cart : List (CartItem Number))
      → is_distinct cart ≡ true
      → remove_first id cart ≡ others id cart
  remove_first-others id [] h = refl
  remove_first-others id (y ∷ cart) h =
      ground (arith, eq_iff y.product.id id, others-absent id cart, remove_first-others id cart)

  price_from-append :
      (a : Arithmetic Number) (x : CartItem Number) (acc : Number) (cart : List (CartItem Number))
      → price_from a acc (cart ++ x ∷ [])
        ≡ a.add (price_from a acc cart) (a.mul x.product.price x.quantity)
  price_from-append a x acc [] = refl
  price_from-append a x acc (y ∷ cart) =
      price_from-append a x (a.add acc (a.mul y.product.price y.quantity)) cart

-- Adding refuses a product that is in the cart; any other goes in, and then a distinct cart stays
-- distinct, holds the product, and its total has grown by the product's price for one piece.
pub add_product_to_cart-once :
    {Number : Type 0} (a : Arithmetic Number) (item : Product Number)
    (cart : List (CartItem Number))
    → is_distinct cart ≡ true
    → ((is_product_in_cart item cart ≡ true)
        × (add_product_to_cart a item cart ≡ refused already_in_cart))
      ⊎ ((is_product_in_cart item cart ≡ false)
          × ((next : List (CartItem Number)) × (add_product_to_cart a item cart ≡ changed next)
              × (is_distinct next ≡ true)
              × (is_product_in_cart item next ≡ true)
              × (total_price a next ≡ a.add (total_price a cart) (a.mul item.price a.one))))
unfolding add_product_to_cart is_product_in_cart total_price
add_product_to_cart-once a item cart h = elim (Bool-cases (is_some (find (is_item item.id) cart))) [
  | inl there ↦ inl (there, rw there refl)
  | inr absent ↦ inr (
    absent,
    (
      cart ++ record { product = item; quantity = a.one } ∷ [],
      rw absent refl,
      is_distinct-append cart (record { product = item; quantity = a.one }) h absent,
      ground (
        arith,
        found-append item.id cart (record { product = item; quantity = a.one }),
        absent,
        eq_iff item.id item.id,
      ),
      price_from-append a (record { product = item; quantity = a.one }) a.zero cart,
    ),
  )
]

-- Removing refuses a product that is not in the cart; one that is in a distinct cart is taken out, so
-- that a second removal is refused, and the items of all other products stay as they were, in their order.
pub remove_product_from_cart-gone :
    {Number : Type 0} (item : Product Number) (cart : List (CartItem Number))
    → is_distinct cart ≡ true
    → ((is_product_in_cart item cart ≡ false)
        × (remove_product_from_cart item cart ≡ refused not_in_cart))
      ⊎ ((is_product_in_cart item cart ≡ true)
          × ((next : List (CartItem Number)) × (remove_product_from_cart item cart ≡ changed next)
              × (remove_product_from_cart item next ≡ refused not_in_cart)
              × (next ≡ others item.id cart)))
unfolding remove_product_from_cart is_product_in_cart
remove_product_from_cart-gone item cart h =
    elim (Bool-cases (is_some (find (is_item item.id) cart))) [
      | inl there ↦ inr (
        there,
        (
          remove_first item.id cart,
          rw there refl,
          rw (gone item.id cart h) refl,
          remove_first-others item.id cart h,
        ),
      )
      | inr absent ↦ inl (absent, rw absent refl)
    ]
