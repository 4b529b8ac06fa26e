-- ===== src/Client/Cart.antt =====
-- apps/client-mx/src/app/store/cart-manager/cart-manager.ts. A JavaScript number is a parameter: its
-- sum, its product, 0 and 1 are what the total price uses.
pub mod Distinct
use demo_t.Base.{
  ℕ, String, Bool, true, false, not, Option, none, some, List, [], ◌∷◌, ◌++◌, ◌===◌, length, find,
  is_some, if◌then◌else◌,
}

pub record Arithmetic (Number : Type 0) : Type 0 where
  pub add : Number → Number → Number
  pub mul : Number → Number → Number
  pub zero : Number
  pub one : Number

-- The fields of `ApiProduct` that the cart reads.
pub record Product (Number : Type 0) : Type 0 where
  pub id : String
  pub price : Number

pub record CartItem (Number : Type 0) : Type 0 where
  pub product : Product Number
  pub quantity : Number

-- What a method throws.
pub data CartError : Type 0 where
  already_in_cart not_in_cart : CartError

pub data Changed (A : Type 0) : Type 0 where
  changed : A → Changed A
  refused : CartError → Changed A

module _ {Number : Type 0} where
  abbrev pub is_item : String → CartItem Number → Bool
  is_item id item = item.product.id === id

  unfoldable pub is_product_in_cart : Product Number → List (CartItem Number) → Bool
  is_product_in_cart item cart = is_some (find (is_item item.id) cart)

  -- `splice(indexOf(foundItem), 1)`
  abbrev pub remove_first : String → List (CartItem Number) → List (CartItem Number)
  remove_first id [] = []
  remove_first id (x ∷ cart) = if is_item id x then cart else x ∷ remove_first id cart

  -- `foundItem.quantity = quantity`
  abbrev pub change_first : String → Number → List (CartItem Number) → List (CartItem Number)
  change_first id quantity [] = []
  change_first id quantity (x ∷ cart) =
      if is_item id x
      then record x { quantity = quantity } ∷ cart
      else x ∷ change_first id quantity cart

  unfoldable pub remove_product_from_cart :
      Product Number → List (CartItem Number) → Changed (List (CartItem Number))
  remove_product_from_cart item cart =
      if is_some (find (is_item item.id) cart)
      then changed (remove_first item.id cart)
      else refused not_in_cart

  unfoldable pub update_cart_item_quantity :
      Product Number → Number → List (CartItem Number) → Changed (List (CartItem Number))
  update_cart_item_quantity item quantity cart =
      if is_some (find (is_item item.id) cart)
      then changed (change_first item.id quantity cart)
      else refused not_in_cart

  unfoldable pub clear_cart : List (CartItem Number) → List (CartItem Number)
  clear_cart cart = []

module _ {Number : Type 0} (a : Arithmetic Number) where
  unfoldable pub add_product_to_cart :
      Product Number → List (CartItem Number) → Changed (List (CartItem Number))
  unfolding is_product_in_cart
  add_product_to_cart item cart =
      if is_product_in_cart item cart
      then refused already_in_cart
      else changed (cart ++ record { product = item; quantity = a.one } ∷ [])

  abbrev pub price_from : Number → List (CartItem Number) → Number
  price_from acc [] = acc
  price_from acc (x ∷ cart) = price_from (a.add acc (a.mul x.product.price x.quantity)) cart

  unfoldable pub total_price : List (CartItem Number) → Number
  total_price cart = price_from a.zero cart
