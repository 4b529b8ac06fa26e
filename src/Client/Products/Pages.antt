-- ===== src/Client/Products/Pages.antt =====
-- The endless list ends, with every product in it.
use mathlib.Core.List
use demo_t.Base.{
  ℕ, zero, suc, true, false, none, some, List, [], ◌∷◌, ◌++◌, ◌≡◌, refl, sym, ap, ◌∙◌, ◌+◌, ◌-◌,
  ◌*◌, ◌≤◌, ◌<◌, leb, leb→le, length, take, drop, map, arith, if◌then◌else◌, Bool-cases, inl, inr,
  length-take,
}
use demo_t.Errors.Exceptions.{Result, ok}
use demo_t.Gateway.Products.{
  Product, ProductDetailed, Page, Collection, parse_products, get_products, page_of,
}
use demo_t.Client.Products.{
  all_entries, get_next_page_param, fetch_products, fetch_page, load_more, load_all,
}

suc_add : (m n : ℕ) → suc (m + n) ≡ suc m + n
suc_add m n = omega arith

module _ {ℓ} {A : Type ℓ} where
  take-nil : (n : ℕ) → take {A = A} n [] ≡ []
  take-nil zero = refl
  take-nil (suc n) = refl

  -- The rows before a place, with the next ones.
  append-take-drop : (m n : ℕ) (xs : List A) → take m xs ++ take n (drop m xs) ≡ take (m + n) xs
  append-take-drop zero n xs = ap (λ k. take k xs) (omega arith)
  append-take-drop (suc m) n [] = take-nil n ∙ sym (take-nil (suc m + n))
  append-take-drop (suc m) n (x ∷ xs) =
      ap (λ ys. x ∷ ys) (append-take-drop m n xs) ∙ ap (λ k. take k (x ∷ xs)) (suc_add m n)

  take-all : (n : ℕ) (xs : List A) → length xs ≤ n → take n xs ≡ xs
  take-all zero [] h = refl
  take-all zero (x ∷ xs) h = absurd (omega arith)
  take-all (suc n) [] h = refl
  take-all (suc n) (x ∷ xs) h = ap (λ ys. x ∷ ys) (take-all n xs (omega arith))

  append-nil : (xs : List A) → xs ++ [] ≡ xs
  append-nil [] = refl
  append-nil (x ∷ xs) = ap (λ ys. x ∷ ys) (append-nil xs)

  append_assoc : (xs ys zs : List A) → (xs ++ ys) ++ zs ≡ xs ++ (ys ++ zs)
  append_assoc [] ys zs = refl
  append_assoc (x ∷ xs) ys zs = ap (λ us. x ∷ us) (append_assoc xs ys zs)

-- The documented behaviour of the collection, over the rows that it holds.
pub record IsCollection {Number : Type 0} (rows : List (ProductDetailed Number))
    (db : Collection Number) : Type 0 where
  pub counts : db.count ≡ ok (length rows)
  pub finds : (offset limit : ℕ) → db.find offset limit none ≡ ok (take limit (drop offset rows))

module _ {Number : Type 0} where
  abbrev pub products : List (ProductDetailed Number) → List (Product Number)
  products = map (λ d. d.product)

  map-parse_product : (ps : List (Product Number)) → parse_products ps ≡ ps
  map-parse_product [] = refl
  map-parse_product (p ∷ ps) = ap (λ qs. p ∷ qs) (map-parse_product ps)

  length-products : (ds : List (ProductDetailed Number)) → length (products ds) ≡ length ds
  length-products [] = refl
  length-products (d ∷ ds) = ap suc (length-products ds)

  all_entries-append :
      (pages more : List (Page Number))
      → all_entries (pages ++ more) ≡ all_entries pages ++ all_entries more
  all_entries-append [] more = refl
  all_entries-append (page ∷ pages) more =
      ap (λ ps. page.entries ++ ps) (all_entries-append pages more)
      ∙ sym (append_assoc page.entries (all_entries pages) (all_entries more))

  -- The endless list has ended, with everything in it.
  abbrev pub IsComplete :
      List (ProductDetailed Number) → Result (Page Number × List (Page Number)) → Type 0
  IsComplete rows result =
      (last : Page Number) × (pages : List (Page Number)) × (result ≡ ok (last, pages))
      × (all_entries pages ≡ products rows)
      × (get_next_page_param last pages ≡ none)

  module _ (rows : List (ProductDetailed Number)) (db : Collection Number)
      (C : IsCollection rows db) where
    -- The page after so many others.
    abbrev page_after : ℕ → Page Number
    page_after k = record {
      metadata = record { total = length rows; offset = k * 10; limit = 10 };
      entries = products (take 10 (drop (k * 10) rows));
    }

    fetch_page-page_after :
        (k : ℕ) → k * 10 < length rows → fetch_page db (k + 1) ≡ ok (page_after k)
    unfolding fetch_page fetch_products get_products page_of
    fetch_page-page_after k h =
        rw (the_offset, C.counts)
          (rw (in_range, C.finds (k * 10) 10)
            (rw
              (
                map-parse_product (products (take 10 (drop (k * 10) rows))),
                map-parse_product (products (take 10 (drop (k * 10) rows))),
              )
              refl))
      where
        the_offset : (k + 1 - 1) * 10 ≡ k * 10
        the_offset = omega arith

        in_range : leb (length rows) (k * 10) ≡ false
        in_range = ground arith

    -- The first pages: every product up to their end, and not beyond.
    record IsLoaded (k : ℕ) (last : Page Number) (pages : List (Page Number)) : Type 0 where
      last_is : last ≡ page_after k
      reached : k * 10 < length rows
      entries_are : all_entries pages ≡ products (take (k * 10 + 10) rows)

    loaded :
        (k : ℕ) (last : Page Number) (pages : List (Page Number))
        → IsLoaded k last pages
        → length (all_entries pages) ≡ length (take (k * 10 + 10) rows)
    loaded k last pages h = rw h.entries_are (length-products (take (k * 10 + 10) rows))

    next_page :
        (k : ℕ) (last : Page Number) (pages : List (Page Number))
        → IsLoaded k last pages
        → get_next_page_param last pages
          ≡ (if leb (length rows) (k * 10 + 10) then none else some (suc k + 1))
    unfolding get_next_page_param
    next_page k last pages h =
        rw (h.last_is, loaded k last pages h)
          (elim (Bool-cases (leb (length rows) (k * 10 + 10))) [
            | inl last_page ↦
                ground (arith, ap length (take-all (k * 10 + 10) rows (leb→le _ _ last_page)))
            | inr more ↦ ground (arith, length-take (k * 10 + 10) rows (ground arith))
          ])

    one_more :
        (k : ℕ) (last : Page Number) (pages : List (Page Number))
        → IsLoaded k last pages
        → leb (length rows) (k * 10 + 10) ≡ false
        → IsLoaded (suc k) (page_after (suc k)) (pages ++ (page_after (suc k) ∷ []))
    one_more k last pages h more = record {
      last_is = refl;
      reached = ground arith;
      entries_are =
          all_entries-append pages (page_after (suc k) ∷ [])
          ∙ ap (λ ps. all_entries pages ++ ps)
              (append-nil (products (take 10 (drop (suc k * 10) rows))))
          ∙ ap (λ ps. ps ++ products (take 10 (drop (suc k * 10) rows))) h.entries_are
          ∙ sym (List.map-append _ (take (k * 10 + 10) rows) (take 10 (drop (suc k * 10) rows)))
          ∙ ap products (joined k);
    }
      where
        place : (n : ℕ) → n * 10 + 10 ≡ suc n * 10
        place n = omega arith

        joined :
            (n : ℕ)
            → take (n * 10 + 10) rows ++ take 10 (drop (suc n * 10) rows)
              ≡ take (suc n * 10 + 10) rows
        joined n =
            ap (λ m. take m rows ++ take 10 (drop (suc n * 10) rows)) (place n)
            ∙ append-take-drop (suc n * 10) 10 rows

    complete_at :
        (k : ℕ) (last : Page Number) (pages : List (Page Number))
        → IsLoaded k last pages
        → leb (length rows) (k * 10 + 10) ≡ true
        → (all_entries pages ≡ products rows) × (get_next_page_param last pages ≡ none)
    complete_at k last pages h there = (
      h.entries_are ∙ ap products (take-all (k * 10 + 10) rows (leb→le _ _ there)),
      next_page k last pages h ∙ ap (λ t. if t then none else some (suc k + 1)) there,
    )

    load_more-IsComplete :
        (fuel k : ℕ) (last : Page Number) (pages : List (Page Number))
        → IsLoaded k last pages
        → length rows ≤ k * 10 + 10 + fuel * 10
        → IsComplete rows (load_more db fuel last pages)
    unfolding load_more
    load_more-IsComplete zero k last pages h enough =
        let (entries, ended) = complete_at k last pages h (ground arith) in
        (last, pages, refl, entries, ended)
    load_more-IsComplete (suc fuel) k last pages h enough =
        elim (Bool-cases (leb (length rows) (k * 10 + 10))) [
          | inl there ↦
              let (entries, ended) = complete_at k last pages h there in
              rw (load_more, ended) (last, pages, refl, entries, ended)
          | inr more ↦
              rw
                (
                  load_more,
                  next_page k last pages h,
                  more,
                  fetch_page-page_after (suc k) (ground arith),
                )
                (load_more-IsComplete fuel (suc k) (page_after (suc k))
                  (pages ++ (page_after (suc k) ∷ [])) (one_more k last pages h more) (omega arith))
        ]

    -- The endless list of a catalogue that is not empty loads without an error and ends, after at most one
    -- request for every ten products: it then holds every product once, in the order of the collection, and
    -- asks for no further page.
    pub load_all-IsComplete :
        (fuel : ℕ)
        → 0 < length rows
        → length rows ≤ 10 + fuel * 10
        → IsComplete rows (load_all db fuel)
    unfolding load_all
    load_all-IsComplete fuel filled enough = rw (fetch_page-page_after 0 (omega arith)) (
        load_more-IsComplete fuel 0 (page_after 0) (page_after 0 ∷ [])
          (record {
            last_is = refl;
            reached = omega arith;
            entries_are = append-nil (products (take 10 rows));
          })
          (omega arith))
