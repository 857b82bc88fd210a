-- ===== src/Sandcastle/TaskEnvironment/Names.antt =====
-- parseAfkEnvironment: the names that a Task asks for.
use flash_trips.Prelude.{
  String, Bytes, Bool, true, false, none, some, List, [], ◌∷◌, ◌≡◌, refl, sym, ap, ◌∙◌, subst, ◌≢◌,
  ◌⊎◌, inl, inr, ◌↔◌, All, codes, includes, str_eq, eq_iff, trim, split_on, arith, Bool-cases,
  Option-cases, Result, ok, err, ok_injective, if◌then◌else◌,
}
use flash_trips.Sandcastle.Autopilot.Laws.{In}
use flash_trips.Sandcastle.Environment.{SettingError, empty_section}
use flash_trips.Sandcastle.TaskEnvironment.{
  find_heading, section, is_variable_name, entry, entries, nonempty_lines, codes_before,
  text_before, insert_name, sort_names, distinct, parse_afk_environment, sorted_set,
  names_of_section,
}

-- Every name stands before all that follow it, and is none of them.
abbrev pub Ascending : List String → Type 0
Ascending [] = Unit {0}
Ascending (x ∷ xs) = All (λ y. (text_before x y ≡ true) × (x ≢ y)) xs × Ascending xs

codes_before_total : (xs ys : Bytes) → codes_before xs ys ≡ false → codes_before ys xs ≡ true
unfolding codes_before
codes_before_total [] ys h = cc
codes_before_total (x ∷ xs) [] h = refl
codes_before_total (x ∷ xs) (y ∷ ys) h = ground (arith, codes_before_total xs ys)

codes_before_trans :
    (xs ys zs : Bytes)
    → codes_before xs ys ≡ true
    → codes_before ys zs ≡ true
    → codes_before xs zs ≡ true
unfolding codes_before
codes_before_trans [] ys zs h k = refl
codes_before_trans (x ∷ xs) [] zs h k = cc
codes_before_trans (x ∷ xs) (y ∷ ys) [] h k = cc
codes_before_trans (x ∷ xs) (y ∷ ys) (z ∷ zs) h k = ground (arith, codes_before_trans xs ys zs)

includes_iff : (x : String) (xs : List String) → (includes x xs ≡ true) ↔ In x xs
includes_iff x [] = ground arith
includes_iff x (y ∷ ys) = ground (arith, includes_iff x ys, eq_iff y x)

In-insert_name : (n x : String) (xs : List String) → In n (insert_name x xs) ↔ ((n ≡ x) ⊎ In n xs)
unfolding insert_name
In-insert_name n x [] = ground arith
In-insert_name n x (y ∷ ys) = elim (Bool-cases (text_before x y)) [
  | inl e ↦ ground (arith, In-insert_name n x ys)
  | inr e ↦ ground (arith, In-insert_name n x ys)
]

In-sort_names : (n : String) (xs : List String) → In n (sort_names xs) ↔ In n xs
unfolding sort_names
In-sort_names n [] = ground arith
In-sort_names n (x ∷ xs) = ground (arith, In-insert_name n x (sort_names xs), In-sort_names n xs)

In-distinct : (n : String) (xs : List String) → In n (distinct xs) ↔ In n xs
unfolding distinct
In-distinct n [] = ground arith
In-distinct n (x ∷ xs) = elim (Bool-cases (includes x (distinct xs))) [
  | inl e ↦ rw e (
    λ h. inr ((In-distinct n xs).0 h),
    λ h. elim h [
      | inl s ↦ subst (λ z. In z (distinct xs)) (sym s) ((includes_iff x (distinct xs)).0 e)
      | inr m ↦ (In-distinct n xs).1 m
    ],
  )
  | inr e ↦ ground (arith, In-distinct n xs)
]

module _ {A : Type 0} (P : A → Type 0) where
  pub All-of_member : (xs : List A) → ((x : A) → In x xs → P x) → All P xs
  All-of_member [] h = tt
  All-of_member (x ∷ xs) h = (h x (inl refl), All-of_member xs (λ y m. h y (inr m)))

  pub In-of_All : (xs : List A) → All P xs → (x : A) → In x xs → P x
  In-of_All [] h x m = absurd m
  In-of_All (y ∷ ys) h x (inl e) = subst P (sym e) h.0
  In-of_All (y ∷ ys) h x (inr m) = In-of_All ys h.1 x m

abbrev Before : String → String → Type 0
Before x y = (text_before x y ≡ true) × (x ≢ y)

insert_name-Ascending :
    (x : String) (xs : List String) → (In x xs → ⊥) → Ascending xs → Ascending (insert_name x xs)
unfolding insert_name
insert_name-Ascending x [] new h = (tt, tt)
insert_name-Ascending x (y ∷ ys) new h = elim (Bool-cases (text_before x y)) [
  | inl e ↦ rw e (
    (
      (e, λ s. new (inl s)),
      All-of_member (Before x) ys (λ z m. (
        codes_before_trans (codes x) (codes y) (codes z) e (In-of_All (Before y) ys h.0 z m).0,
        λ s. new (inr (subst (λ u. In u ys) (sym s) m)),
      )),
    ),
    h,
  )
  | inr e ↦ rw e (
    All-of_member (Before y) (insert_name x ys) (λ z m. elim ((In-insert_name z x ys).0 m) [
      | inl s ↦
          subst (Before y) (sym s)
            (codes_before_total (codes x) (codes y) e, λ t. new (inl (sym t)))
      | inr k ↦ In-of_All (Before y) ys h.0 z k
    ]),
    insert_name-Ascending x ys (λ m. new (inr m)) h.1,
  )
]

sort_names-Ascending : (xs : List String) → Ascending (sort_names (distinct xs))
unfolding sort_names distinct
sort_names-Ascending [] = tt
sort_names-Ascending (x ∷ xs) = elim (Bool-cases (includes x (distinct xs))) [
  | inl e ↦ rw e (sort_names-Ascending xs)
  | inr e ↦ rw e (
      insert_name-Ascending x (sort_names (distinct xs))
        (λ m.
          ground (arith, e, (includes_iff x (distinct xs)).1 ((In-sort_names x (distinct xs)).0 m)))
        (sort_names-Ascending xs))
]

-- A line of the list is a bullet for the name.
abbrev pub IsBulleted : List String → String → Type 0
IsBulleted lines name = (line : String) × In line lines × (entry line ≡ some name)

entries_lem :
    (lines names : List String)
    → entries lines ≡ ok names
    → (n : String) → In n names ↔ IsBulleted lines n
unfolding entries
entries_lem [] [] h n = (λ m. absurd m, λ (line, m, e). absurd m)
entries_lem [] (x ∷ xs) h n = cc
entries_lem (line ∷ lines) names h n = elim (Option-cases (entry line)) [
  | inl bad ↦ absurd (ground (arith, bad, h))
  | inr (name, e) ↦
      go name e (entries lines) (λ others same. entries_lem lines others same n)
        (ground (arith, e, h))
]
  where
    go :
        (name : String)
        → entry line ≡ some name
        → (rest : Result SettingError (List String))
        → ((others : List String) → rest ≡ ok others → In n others ↔ IsBulleted lines n)
        → ◌≡◌ {A = Result SettingError (List String)}
            (elim rest [ err e ↦ err e | ok names ↦ ok (name ∷ names) ])
            (ok names)
        → In n names ↔ IsBulleted (line ∷ lines) n
    go name e (err thrown) before returned = cc
    go name e (ok others) before returned =
        let names_eq : name ∷ others ≡ names = ok_injective returned in
        let (to, from) = before others refl in
        subst (λ ns. In n ns ↔ IsBulleted (line ∷ lines) n) names_eq
          (
            λ m. elim m [
              | inl s ↦ (line, inl refl, e ∙ ap some (sym s))
              | inr k ↦ let (l, j, b) = to k in (l, inr j, b)
            ],
            λ (l, j, b). elim j [
              | inl s ↦ inl (ground (arith, e, b, s))
              | inr k ↦ inr (from (l, k, b))
            ],
          )

entry-name : (line name : String) → entry line ≡ some name → is_variable_name name ≡ true
unfolding entry
entry-name line name h = ground (arith, h)

-- What a body without an error asks for: nothing without a section, and else the names of its
-- bullets, in ascending order.
pub data Requests (body : String) (names : List String) : Type 0 where
  nothing : find_heading true body ≡ none → names ≡ [] → Requests body names
  bulleted :
      (rest : String)
      → find_heading true body ≡ some rest
      → ((n : String)
          → In n names ↔ IsBulleted (nonempty_lines (split_on 10 (trim (section false rest)))) n)
      → Requests body names

names_of_section_lem :
    (body rest : String)
    → find_heading true body ≡ some rest
    → (text : String) → trim (section false rest) ≡ text
    → (names : List String) → names_of_section text ≡ ok names
    → Ascending names × All (λ n. is_variable_name n ≡ true) names × Requests body names
names_of_section_lem body rest found text shape names returned =
    go (entries (nonempty_lines (split_on 10 text))) refl
      (if_not (str_eq text "") (sorted_set (entries (nonempty_lines (split_on 10 text)))) returned)
  where
    if_not :
        (test : Bool) (o : Result SettingError (List String))
        → (if test then err empty_section else o) ≡ ok names
        → o ≡ ok names
    if_not true o h = cc
    if_not false o h = h

    go :
        (o : Result SettingError (List String))
        → entries (nonempty_lines (split_on 10 text)) ≡ o
        → sorted_set o ≡ ok names
        → Ascending names × All (λ n. is_variable_name n ≡ true) names × Requests body names
    go (err e) same h = cc
    go (ok listed) same h =
        let eq : sort_names (distinct listed) ≡ names = ok_injective h in
        let member : (n : String) → In n names ↔ IsBulleted (nonempty_lines (split_on 10 text)) n =
          λ n.
            let (to, from) = entries_lem (nonempty_lines (split_on 10 text)) listed same n in
            let (back, forth) = In-distinct n listed in
            let (down, up) = In-sort_names n (distinct listed) in
            subst (λ ns. In n ns ↔ IsBulleted (nonempty_lines (split_on 10 text)) n) eq
              (λ m. to (back (down m)), λ b. up (forth (from b))) in
        (
          subst Ascending eq (sort_names-Ascending listed),
          All-of_member (λ n. is_variable_name n ≡ true) names
              (λ n m. let (line, _, e) = (member n).0 m in entry-name line n e),
          bulleted rest found (
              subst (λ t. (n : String) → In n names ↔ IsBulleted (nonempty_lines (split_on 10 t)) n)
                (sym shape) member),
        )

-- A body that is accepted asks for nothing, if it has no section, and else for exactly the names of
-- the bullets in its section; they are variable names, in ascending order, each once.
pub parse_afk_environment-Requests :
    (body : String) (names : List String)
    → parse_afk_environment body ≡ ok names
    → Ascending names × All (λ n. is_variable_name n ≡ true) names × Requests body names
unfolding parse_afk_environment
parse_afk_environment-Requests body names returned = elim (Option-cases (find_heading true body)) [
  | inl missing ↦
      let eq : [] ≡ names = ok_injective {E = SettingError} (ground (arith, missing, returned)) in
      (
        subst Ascending eq tt,
        subst (All (λ n. is_variable_name n ≡ true)) eq tt,
        nothing missing (sym eq),
      )
  | inr (rest, found) ↦
      names_of_section_lem body rest found (trim (section false rest)) refl names
        (ground (arith, found, returned))
]
