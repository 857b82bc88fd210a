-- ===== src/Sandcastle/Pages.antt =====
-- readPaginatedConnection of .sandcastle/main.mts: a list that the tracker answers page by page.
pub mod Laws
use flash_trips.Prelude.{
  ℕ, zero, suc, String, Bool, Option, none, some, List, [], ◌∷◌, ◌++◌, ◌||◌, str_eq, includes,
  if◌then◌else◌, Result, ok, err,
}

pub data PageError : Type 0 where
  no_answer : PageError
  did_not_advance : PageError
  out_of_fuel : PageError

-- pageSchema.
pub record Page (A : Type 0) : Type 0 where
  pub has_next_page : Bool
  pub end_cursor : Option String
  pub items : List A

-- The next cursor of a page: one that was not seen, or an error.
unfoldable pub next_cursor : List String → Option String → Result PageError String
next_cursor seen none = err did_not_advance
next_cursor seen (some cursor) =
    if str_eq cursor "" || includes cursor seen then err did_not_advance else ok cursor

module _ {A : Type 0} where
  -- What follows a page.
  abbrev pub then_read :
      Result PageError String → (String → Result PageError (List A)) → Result PageError (List A)
  then_read (err e) next = err e
  then_read (ok cursor) next = next cursor

  abbrev pub read_page :
      Option (Page A)
      → List A
      → List String
      → (List A → String → Result PageError (List A))
      → Result PageError (List A)
  read_page none items seen next = err no_answer
  read_page (some page) items seen next =
      if page.has_next_page
      then then_read (next_cursor seen page.end_cursor) (next (items ++ page.items))
      else ok (items ++ page.items)

  -- The loop, with fuel. The tracker's answer at a cursor is none where the call or the schema throws.
  unfoldable pub read_from :
      (Option String → Option (Page A))
      → ℕ
      → List A
      → List String
      → Option String
      → Result PageError (List A)
  read_from fetch zero items seen cursor = err out_of_fuel
  read_from fetch (suc fuel) items seen cursor =
      read_page (fetch cursor) items seen
        (λ more next. read_from fetch fuel more (next ∷ seen) (some next))

  -- readPaginatedConnection.
  unfoldable pub read_paginated_connection :
      (Option String → Option (Page A)) → ℕ → Result PageError (List A)
  unfolding read_from
  read_paginated_connection fetch fuel = read_from fetch fuel [] [] none
