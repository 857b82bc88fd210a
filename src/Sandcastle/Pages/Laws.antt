-- ===== src/Sandcastle/Pages/Laws.antt =====
-- Reading all pages ends, and gives the pages that the cursors link, in their order.
use flash_trips.Prelude.{
  ℕ, zero, suc, ◌≤◌, ◌<◌, String, Bool, true, false, Option, none, some, List, [], ◌∷◌, ◌++◌,
  append_assoc, ◌≡◌, refl, sym, ap, ◌∙◌, subst, ◌≢◌, ◌↔◌, inl, inr, includes, str_eq, eq_iff,
  length, arith, Bool-cases, if◌then◌else◌, Result, ok, err, ok_injective,
}
use flash_trips.Sandcastle.Autopilot.Laws.{In}
use flash_trips.Sandcastle.Pages.{
  PageError, no_answer, did_not_advance, out_of_fuel, Page, next_cursor, then_read, read_page,
  read_from, read_paginated_connection,
}

-- How many of the cursors were not seen yet.
unseen : List String → List String → ℕ
unseen seen [] = 0
unseen seen (c ∷ cs) = let rest = unseen seen cs in if includes c seen then rest else suc rest

unfolding_le : (c : String) (seen cs : List String) → unseen (c ∷ seen) cs ≤ unseen seen cs
unfolding unseen
unfolding_le c seen [] = omega arith
unfolding_le c seen (d ∷ ds) = ground (arith, unfolding_le c seen ds)

unseen-lt :
    (c : String) (seen cs : List String)
    → In c cs
    → includes c seen ≡ false
    → unseen (c ∷ seen) cs < unseen seen cs
unfolding unseen
unseen-lt c seen [] m new = absurd m
unseen-lt c seen (d ∷ ds) m new =
    ground (arith, unfolding_le c seen ds, unseen-lt c seen ds, eq_iff c d)

unseen-length : (cs : List String) → unseen [] cs ≤ length cs
unfolding unseen
unseen-length [] = omega arith
unseen-length (c ∷ cs) = ground (arith, unseen-length cs)

next_cursor-ok :
    (seen : List String) (o : Option String) (c : String)
    → next_cursor seen o ≡ ok c
    → (o ≡ some c) × (c ≢ "") × (includes c seen ≡ false)
unfolding next_cursor
next_cursor-ok seen none c h = cc
next_cursor-ok seen (some d) c h =
    ground (arith, h, eq_iff d "", ok_injective {E = PageError} {a = d} {b = c})

next_cursor-err : (seen : List String) (o : Option String) → next_cursor seen o ≢ err out_of_fuel
unfolding next_cursor
next_cursor-err seen none = λ h. cc
next_cursor-err seen (some d) = λ h. ground (arith, h)

module _ {A : Type 0} (fetch : Option String → Option (Page A)) where
  -- The items of the pages that the cursors link, none of which was seen before.
  pub data Linked : List String → Option String → List A → Type 0 where
    final :
        {seen : List String} {at : Option String} (page : Page A)
        → fetch at ≡ some page
        → page.has_next_page ≡ false
        → Linked seen at page.items
    link :
        {seen : List String} {at : Option String} (page : Page A) (c : String) (rest : List A)
        → fetch at ≡ some page
        → page.has_next_page ≡ true
        → page.end_cursor ≡ some c
        → c ≢ ""
        → includes c seen ≡ false
        → Linked (c ∷ seen) (some c) rest
        → Linked seen at (page.items ++ rest)

  -- Every cursor that the tracker answers is one of these.
  abbrev pub IsClosed : List String → Type 0
  IsClosed cursors =
      (at : Option String) (page : Page A) (c : String)
      → fetch at ≡ some page
      → page.end_cursor ≡ some c
      → In c cursors

  read_from-ends :
      (cursors : List String)
      → IsClosed cursors
      → (fuel : ℕ) (items : List A) (seen : List String) (at : Option String)
      → unseen seen cursors < fuel
      → read_from fetch fuel items seen at ≢ err out_of_fuel
  unfolding read_from
  read_from-ends cursors closed zero items seen at enough = absurd (omega arith)
  read_from-ends cursors closed (suc fuel) items seen at enough =
      step (fetch at) refl (λ more c m new.
        read_from-ends cursors closed fuel more (c ∷ seen) (some c)
          (omega (arith, enough, unseen-lt c seen cursors m new)))
    where
      follow :
          (o : Result PageError String)
          → o ≢ err out_of_fuel
          → (next : String → Result PageError (List A))
          → ((c : String) → o ≡ ok c → next c ≢ err out_of_fuel)
          → then_read o next ≢ err out_of_fuel
      follow (err e) fine next later = λ h. fine (failed e h)
        where
          failed :
              (e : PageError)
              → ◌≡◌ {A = Result PageError (List A)} (err e) (err out_of_fuel)
              → ◌≡◌ {A = Result PageError String} (err e) (err out_of_fuel)
          failed no_answer h = cc
          failed did_not_advance h = cc
          failed out_of_fuel h = refl
      follow (ok c) fine next later = later c refl

      step :
          (o : Option (Page A))
          → fetch at ≡ o
          → ((more : List A) (c : String)
              → In c cursors
              → includes c seen ≡ false
              → read_from fetch fuel more (c ∷ seen) (some c) ≢ err out_of_fuel)
          → read_page o items seen
              (λ more next. read_from fetch fuel more (next ∷ seen) (some next))
            ≢ err out_of_fuel
      step none got later = λ h. cc
      step (some page) got later = elim (Bool-cases page.has_next_page) [
        | inr over ↦ rw over (λ h. cc)
        | inl on ↦ rw on (
            follow (next_cursor seen page.end_cursor) (next_cursor-err seen page.end_cursor)
              (λ next. read_from fetch fuel (items ++ page.items) (next ∷ seen) (some next))
              (λ c found.
                let (e, _, new) = next_cursor-ok seen page.end_cursor c found in
                later (items ++ page.items) c (closed at page c got e) new))
      ]

  -- Reading all pages ends: fuel for one page more than the tracker has cursors is enough, whatever
  -- the pages link to.
  pub read_paginated_connection-ends :
      (cursors : List String)
      → IsClosed cursors
      → read_paginated_connection fetch (suc (length cursors)) ≢ err out_of_fuel
  unfolding read_paginated_connection
  read_paginated_connection-ends cursors closed =
      read_from-ends cursors closed (suc (length cursors)) [] [] none
        (omega (arith, unseen-length cursors))

  read_from-Linked :
      (fuel : ℕ) (items : List A) (seen : List String) (at : Option String) (all : List A)
      → read_from fetch fuel items seen at ≡ ok all
      → (rest : List A) × (all ≡ items ++ rest) × Linked seen at rest
  unfolding read_from
  read_from-Linked zero items seen at all h = cc
  read_from-Linked (suc fuel) items seen at all h =
      step (fetch at) refl h (λ more c k. read_from-Linked fuel more (c ∷ seen) (some c) all k)
    where
      follow :
          (page : Page A)
          → fetch at ≡ some page
          → page.has_next_page ≡ true
          → ((more : List A) (c : String)
              → read_from fetch fuel more (c ∷ seen) (some c) ≡ ok all
              → (rest : List A) × (all ≡ more ++ rest) × Linked (c ∷ seen) (some c) rest)
          → (o : Result PageError String) → next_cursor seen page.end_cursor ≡ o
          → then_read o
              (λ next. read_from fetch fuel (items ++ page.items) (next ∷ seen) (some next))
            ≡ ok all
          → (rest : List A) × (all ≡ items ++ rest) × Linked seen at rest
      follow page got on later (err e) found k = cc
      follow page got on later (ok c) found k =
          let (e, full, new) = next_cursor-ok seen page.end_cursor c found in
          let (rest, eq, linked) = later (items ++ page.items) c k in
          (
            page.items ++ rest,
            eq ∙ append_assoc items page.items rest,
            link page c rest got on e full new linked,
          )

      branch :
          (test : Bool) {x y : Result PageError (List A)} {B : Type 0}
          → (if test then x else y) ≡ ok all
          → (test ≡ true → x ≡ ok all → B)
          → (test ≡ false → y ≡ ok all → B)
          → B
      branch true h yes_case no_case = yes_case refl h
      branch false h yes_case no_case = no_case refl h

      step :
          (o : Option (Page A))
          → fetch at ≡ o
          → read_page o items seen
              (λ more next. read_from fetch fuel more (next ∷ seen) (some next))
            ≡ ok all
          → ((more : List A) (c : String)
              → read_from fetch fuel more (c ∷ seen) (some c) ≡ ok all
              → (rest : List A) × (all ≡ more ++ rest) × Linked (c ∷ seen) (some c) rest)
          → (rest : List A) × (all ≡ items ++ rest) × Linked seen at rest
      step none got k later = cc
      step (some page) got k later =
          branch page.has_next_page k
            (λ on j. follow page got on later (next_cursor seen page.end_cursor) refl j)
            (λ over j. (page.items, sym (ok_injective {E = PageError} j), final page got over))

  Linked-read_from :
      (cursors : List String)
      → IsClosed cursors
      → {seen : List String} {at : Option String} {rest : List A} → Linked seen at rest
      → (fuel : ℕ) (items : List A) → unseen seen cursors < fuel
      → read_from fetch fuel items seen at ≡ ok (items ++ rest)
  unfolding read_from next_cursor
  Linked-read_from cursors closed l zero items enough = absurd (omega arith)
  Linked-read_from cursors closed (final page got over) (suc fuel) items enough =
      rw (got, over) refl
  Linked-read_from cursors closed {seen} {at} (link page c rest got on e full new l) (suc fuel)
        items enough =
      let later =
        Linked-read_from cursors closed {seen = c ∷ seen} {at = some c} {rest = rest} l fuel
          (items ++ page.items)
          (omega (arith, enough, unseen-lt c seen cursors (closed at page c got e) new)) in
      let named : str_eq c "" ≡ false = ground (arith, full, eq_iff c "") in
      rw (got, on, e, named, new) (later ∙ ap ok (append_assoc items page.items rest))

  -- With that fuel, the result of reading all pages is exactly the items of the pages that the cursors
  -- link from the first to one without a next page, in their order, where no cursor is empty or comes
  -- twice.
  pub read_paginated_connection_iff :
      (cursors : List String)
      → IsClosed cursors
      → (all : List A)
      → (read_paginated_connection fetch (suc (length cursors)) ≡ ok all) ↔ Linked [] none all
  unfolding read_paginated_connection
  read_paginated_connection_iff cursors closed all = (
    λ h.
        let (rest, eq, linked) = read_from-Linked (suc (length cursors)) [] [] none all h in
        subst (Linked [] none) (sym eq) linked,
    λ l.
        Linked-read_from cursors closed l (suc (length cursors)) []
          (omega (arith, unseen-length cursors)),
  )
