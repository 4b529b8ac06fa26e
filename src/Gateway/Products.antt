-- ===== src/Gateway/Products.antt =====
-- The catalogue: apps/server-nest/src/app/modules/products/products.service.ts over RxDB, whose collection is
-- an argument, and the parsers of libs/utils/src/parsers.
use demo_t.Base.{ℕ, String, Option, none, some, List, map, leb, if◌then◌else◌}
use demo_t.Errors.Codes.{HttpStatus, number}
use demo_t.Errors.Exceptions.{http, Result, ok, err}
use demo_t.Gateway.Calls.{◌>>=◌}

-- libs/models/src/api-common/api-product.ts. A price is a JavaScript number, a parameter.
pub record Product (Number : Type 0) : Type 0 where
  pub id : String
  pub name : String
  pub price : Number
  pub tags : Option (List String)
  pub timestamp : String
  pub picture : String
  pub company : String
  pub about : Option String

-- A product's document: the product with the details of its own page.
pub record ProductDetailed (Number : Type 0) : Type 0 where
  pub product : Product Number
  pub specification : Option String
  pub condition : String
  pub seller : Option String
  pub warranty : Option String
  pub color : Option String

pub record Metadata : Type 0 where
  pub total : ℕ
  pub offset : ℕ
  pub limit : ℕ

-- `ApiEntryList`
pub record Page (Number : Type 0) : Type 0 where
  pub metadata : Metadata
  pub entries : List (Product Number)

pub data Order : Type 0 where
  asc desc : Order

-- `ProductQueryParamsDto`, validated; `none` is a parameter that was not given.
pub record ProductQueryParams : Type 0 where
  pub offset : Option ℕ
  pub limit : Option ℕ
  pub sort : Option String
  pub order : Option Order

abbrev pub offset_items : ℕ
offset_items = 0

abbrev pub limit_items : ℕ
limit_items = 10

-- The collection `products`: `count`, `find` with `skip`, `limit` and `sort`, and `findOne`.
pub record Collection (Number : Type 0) : Type 0 where
  pub count : Result ℕ
  pub find : ℕ → ℕ → Option (String × Order) → Result (List (ProductDetailed Number))
  pub find_one : String → Result (Option (ProductDetailed Number))

-- A default argument.
abbrev pub given {ℓ} : {A : Type ℓ} → Option A → A → A
given none other = other
given (some a) other = a

abbrev pub sort_of : Option String → Option Order → Option (String × Order)
sort_of none order = none
sort_of (some field) order = some (field, given order asc)

module _ {Number : Type 0} where
  -- `parseProduct` copies the fields of a product.
  abbrev pub parse_product : Product Number → Product Number
  parse_product p = record {
    id = p.id;
    name = p.name;
    price = p.price;
    tags = p.tags;
    timestamp = p.timestamp;
    picture = p.picture;
    company = p.company;
    about = p.about;
  }

  abbrev pub parse_products : List (Product Number) → List (Product Number)
  parse_products = map parse_product

  abbrev pub parse_product_detailed : ProductDetailed Number → ProductDetailed Number
  parse_product_detailed d = record {
    product = parse_product d.product;
    specification = d.specification;
    condition = d.condition;
    seller = d.seller;
    warranty = d.warranty;
    color = d.color;
  }

  abbrev products_of : List (ProductDetailed Number) → List (Product Number)
  products_of = map (λ d. d.product)

  module _ (db : Collection Number) where
    unfoldable pub page_of : ℕ → ℕ → Option (String × Order) → ℕ → Result (Page Number)
    page_of offset limit sort total =
        if leb total offset
        then err
            (http (number HttpStatus.bad_request) "Offset is bigger than total documents amount")
        else (db.find offset limit sort >>= λ products. ok (record {
          metadata = record { total = total; offset = offset; limit = limit };
          entries = parse_products (products_of products);
        }))

    unfoldable pub get_products : ProductQueryParams → Result (Page Number)
    get_products params = db.count >>= λ total.
        page_of (given params.offset offset_items) (given params.limit limit_items)
          (sort_of params.sort params.order) total

    unfoldable pub get_product : String → Result (ProductDetailed Number)
    get_product id = db.find_one id >>= λ found. elim found [
      | none ↦ err (http (number HttpStatus.not_found) "Product not found")
      | some product ↦ ok (parse_product_detailed product)
    ]
