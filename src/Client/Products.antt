-- ===== src/Client/Products.antt =====
-- The endless list of products: apps/client-mx/src/app/state/hooks/use-products-infinite-query.ts with
-- repository/fetch-products, over the gateway's catalogue. TanStack Query keeps the pages: it asks the query
-- function for the first page, and then for the page that `getNextPageParam` names, until that is `undefined`.
pub mod Pages
use demo_t.Base.{
  ℕ, zero, suc, String, Bool, true, false, not, Option, none, some, List, [], ◌∷◌, ◌++◌, ◌==◌, ◌||◌,
  ◌+◌, ◌-◌, ◌*◌, ◌/◌, ◌%◌, ltb, length, if◌then◌else◌,
}
use demo_t.Errors.Exceptions.{Exception, Result, ok, err}
use demo_t.Gateway.Calls.{◌>>=◌}
use demo_t.Gateway.Products.{
  Product, Metadata, Page, ProductQueryParams, Collection, parse_products, get_products,
}

abbrev pub entities_limit : ℕ
entities_limit = 10

-- `parseMetadata`
abbrev pub parse_metadata : Metadata → Metadata
parse_metadata m = record { total = m.total; limit = m.limit; offset = m.offset }

module _ {Number : Type 0} where
  -- `pages.flatMap((p) => p.entries)`, also the hook's `select`.
  abbrev pub all_entries : List (Page Number) → List (Product Number)
  all_entries [] = []
  all_entries (page ∷ pages) = page.entries ++ all_entries pages

  -- The number of the next page; `none` is `undefined`.
  unfoldable pub get_next_page_param : Page Number → List (Page Number) → Option ℕ
  get_next_page_param last_page all_pages =
      let loaded = length (all_entries all_pages) in
      if not (loaded % entities_limit == 0)
        || (loaded == last_page.metadata.total
            || ltb last_page.metadata.total last_page.metadata.offset)
      then none
      else some (loaded / entities_limit + 1)

  module _ (db : Collection Number) where
    -- The request and its answer, with `offset` as the only parameter.
    unfoldable pub fetch_products : ℕ → Result (Page Number)
    fetch_products offset =
        get_products db (record { offset = some offset; limit = none; sort = none; order = none })
        >>= λ page. ok (record {
          entries = parse_products page.entries;
          metadata = parse_metadata page.metadata;
        })

    -- `queryFn`
    unfoldable pub fetch_page : ℕ → Result (Page Number)
    fetch_page page_param = fetch_products ((page_param - 1) * entities_limit)

    -- Every next page in turn, on fuel; the pages with the last one.
    unfoldable pub load_more :
        ℕ → Page Number → List (Page Number) → Result (Page Number × List (Page Number))
    load_more zero last pages = ok (last, pages)
    load_more (suc fuel) last pages = elim (get_next_page_param last pages) [
      | none ↦ ok (last, pages)
      | some page_param ↦
          fetch_page page_param >>= λ page. load_more fuel page (pages ++ (page ∷ []))
    ]

    -- From `initialPageParam: 1` on.
    unfoldable pub load_all : ℕ → Result (Page Number × List (Page Number))
    load_all fuel = fetch_page 1 >>= λ page. load_more fuel page (page ∷ [])
