-- ===== src/Web/Planner/Shapes.antt =====
-- What the shape tests of apps/web/app/(planner)/planner/trip-station.tsx accept, property by property,
-- and what an entry changes in a map by Trips.
use flash_trips.Prelude.{
  ℕ, String, Bool, true, false, Option, none, some, List, [], ◌∷◌, ◌&&◌, is_some, str_eq, ◌≡◌, refl,
  ◌≢◌, ◌⊎◌, inl, inr, eq_iff, arith, Bool-cases, if◌then◌else◌,
}
use flash_trips.Json.{
  Json, Items, null, bool, num, str, arr, obj, nil, cons, member, string_member, number_member,
}
use flash_trips.Web.Planner.{
  run_statuses, terminal_run_statuses, is_one_of, has_text, is_outcome, is_run, is_null_or_text,
  every_claim, are_claims, is_plan_revision, with_entry,
}

-- The property is a text.
abbrev pub HasText : String → Json → Type 0
HasText name value = (text : String) × (string_member name value ≡ some text)

abbrev pub IsTerminal : String → Type 0
IsTerminal status =
    (status ≡ "Succeeded") ⊎ (status ≡ "Blocked") ⊎ (status ≡ "Failed") ⊎ (status ≡ "Cancelled")

-- Null, or a terminal status with a code and a detail.
abbrev pub IsOutcome : Option Json → Type 0
IsOutcome o =
    (o ≡ some null)
    ⊎ ((outcome : Json) × (status : String) × (o ≡ some outcome)
        × (string_member "status" outcome ≡ some status)
        × IsTerminal status
        × HasText "code" outcome
        × HasText "detail" outcome)

pub record IsRun (value : Json) : Type 0 where
  pub id : HasText "id" value
  pub trip_id : HasText "trip_id" value
  pub status : String
  pub has_status : string_member "status" value ≡ some status
  pub is_known : (status ≡ "Running") ⊎ IsTerminal status
  pub outcome : IsOutcome (member "terminal_outcome" value)

pub record IsPlanClaim (value : Json) : Type 0 where
  pub id : HasText "id" value
  pub kind : string_member "kind" value ≡ some "travel_readiness"
  pub text : HasText "text" value
  pub evidence_reference : HasText "evidence_reference" value
  pub observed_at : HasText "observed_at" value

abbrev pub ArePlanClaims : Items → Type 0
ArePlanClaims nil = Unit {0}
ArePlanClaims (cons value values) = IsPlanClaim value × ArePlanClaims values

pub record IsPlanRevision (value : Json) : Type 0 where
  pub id : HasText "id" value
  pub trip_id : HasText "trip_id" value
  pub run_id : HasText "run_id" value
  pub base :
      (member "base_revision_id" value ≡ some null)
      ⊎ ((text : String) × (member "base_revision_id" value ≡ some (str text)))
  pub number : ℕ
  pub has_number : number_member "revision_number" value ≡ some number
  pub claims : Items
  pub has_claims : member "claims" value ≡ some (arr claims)
  pub each : ArePlanClaims claims

some_lem : {A : Type 0} (o : Option A) → is_some o ≡ true → (a : A) × (o ≡ some a)
some_lem none h = cc
some_lem (some a) h = (a, refl)

and_lem : (a b : Bool) → a && b ≡ true → (a ≡ true) × (b ≡ true)
and_lem true true h = (refl, refl)
and_lem true false h = cc
and_lem false b h = cc

terminal_lem :
    (o : Option String)
    → is_one_of terminal_run_statuses o ≡ true
    → (status : String) × (o ≡ some status) × IsTerminal status
terminal_lem none h = cc
terminal_lem (some s) h = (
  s,
  refl,
  ground (
    arith,
    h,
    eq_iff s "Succeeded",
    eq_iff s "Blocked",
    eq_iff s "Failed",
    eq_iff s "Cancelled",
    eq_iff "Succeeded" s,
    eq_iff "Blocked" s,
    eq_iff "Failed" s,
    eq_iff "Cancelled" s,
  ),
)

status_lem :
    (o : Option String)
    → is_one_of run_statuses o ≡ true
    → (status : String) × (o ≡ some status) × ((status ≡ "Running") ⊎ IsTerminal status)
status_lem none h = cc
status_lem (some s) h = elim (Bool-cases (str_eq s "Running")) [
  | inl e ↦ (s, refl, inl ((eq_iff s "Running").0 e))
  | inr e ↦
      let (status, same, terminal) =
        terminal_lem (some s) (ground (arith, h, e, eq_iff s "Running", eq_iff "Running" s)) in
      (s, refl, inr (ground (arith, same, terminal)))
]

outcome_lem : (o : Option Json) → is_outcome o ≡ true → IsOutcome o
unfolding is_outcome
outcome_lem none h = cc
outcome_lem (some null) h = inl refl
outcome_lem (some (bool b)) h = cc
outcome_lem (some (num n)) h = cc
outcome_lem (some (str s)) h = cc
outcome_lem (some (arr items)) h = cc
outcome_lem (some (obj members)) h =
    let outcome : Json = obj members in
    let (front, detail) =
      and_lem
        (is_one_of terminal_run_statuses (string_member "status" outcome)
          && has_text "code" outcome)
        (has_text "detail" outcome) h in
    let (known, code) =
      and_lem (is_one_of terminal_run_statuses (string_member "status" outcome))
        (has_text "code" outcome) front in
    let (status, at, terminal) = terminal_lem (string_member "status" outcome) known in
    inr (
      outcome,
      status,
      refl,
      at,
      terminal,
      some_lem (string_member "code" outcome) code,
      some_lem (string_member "detail" outcome) detail,
    )

pub is_run-IsRun : (value : Json) → is_run value ≡ true → IsRun value
unfolding is_run
is_run-IsRun value h =
    let (front, outcome) =
      and_lem
        (has_text "id" value
          && has_text "trip_id" value
          && is_one_of run_statuses (string_member "status" value))
        (is_outcome (member "terminal_outcome" value)) h in
    let (texts, listed) =
      and_lem (has_text "id" value && has_text "trip_id" value)
        (is_one_of run_statuses (string_member "status" value)) front in
    let (id, trip) = and_lem (has_text "id" value) (has_text "trip_id" value) texts in
    let (status, at, known) = status_lem (string_member "status" value) listed in
    record {
      id = some_lem (string_member "id" value) id;
      trip_id = some_lem (string_member "trip_id" value) trip;
      status = status;
      has_status = at;
      is_known = known;
      outcome = outcome_lem (member "terminal_outcome" value) outcome;
    }

kind_lem :
    (o : Option String) → is_one_of ("travel_readiness" ∷ []) o ≡ true → o ≡ some "travel_readiness"
kind_lem none h = cc
kind_lem (some s) h = ground (arith, h, eq_iff s "travel_readiness", eq_iff "travel_readiness" s)

every_claim-ArePlanClaims : (claims : Items) → every_claim claims ≡ true → ArePlanClaims claims
unfolding every_claim
every_claim-ArePlanClaims nil h = tt
every_claim-ArePlanClaims (cons claim claims) h = (
  record {
    id = some_lem (string_member "id" claim) (ground (arith, h));
    kind = kind_lem (string_member "kind" claim) (ground (arith, h));
    text = some_lem (string_member "text" claim) (ground (arith, h));
    evidence_reference = some_lem (string_member "evidence_reference" claim) (ground (arith, h));
    observed_at = some_lem (string_member "observed_at" claim) (ground (arith, h));
  },
  every_claim-ArePlanClaims claims (ground (arith, h)),
)

base_lem :
    (o : Option Json)
    → is_null_or_text o ≡ true
    → (o ≡ some null) ⊎ ((text : String) × (o ≡ some (str text)))
base_lem none h = cc
base_lem (some null) h = inl refl
base_lem (some (str s)) h = inr (s, refl)
base_lem (some (bool b)) h = cc
base_lem (some (num n)) h = cc
base_lem (some (arr items)) h = cc
base_lem (some (obj members)) h = cc

claims_lem :
    (o : Option Json)
    → are_claims o ≡ true
    → (claims : Items) × (o ≡ some (arr claims)) × ArePlanClaims claims
unfolding are_claims
claims_lem none h = cc
claims_lem (some null) h = cc
claims_lem (some (str s)) h = cc
claims_lem (some (bool b)) h = cc
claims_lem (some (num n)) h = cc
claims_lem (some (arr items)) h = (items, refl, every_claim-ArePlanClaims items h)
claims_lem (some (obj members)) h = cc

pub is_plan_revision-IsPlanRevision :
    (value : Json) → is_plan_revision value ≡ true → IsPlanRevision value
unfolding is_plan_revision
is_plan_revision-IsPlanRevision value h =
    let (n, number) = some_lem (number_member "revision_number" value) (ground (arith, h)) in
    let (claims, at, each) = claims_lem (member "claims" value) (ground (arith, h)) in
    record {
      id = some_lem (string_member "id" value) (ground (arith, h));
      trip_id = some_lem (string_member "trip_id" value) (ground (arith, h));
      run_id = some_lem (string_member "run_id" value) (ground (arith, h));
      base = base_lem (member "base_revision_id" value) (ground (arith, h));
      number = n;
      has_number = number;
      claims = claims;
      has_claims = at;
      each = each;
    }

-- The entry of a Trip.
abbrev pub entry_of : String → List (String × Json) → Option Json
entry_of trip [] = none
entry_of trip ((key, value) ∷ entries) =
    let rest = entry_of trip entries in if str_eq key trip then some value else rest

-- The Trip has the value, and every other Trip has what it had.
abbrev pub Sets : String → Json → List (String × Json) → List (String × Json) → Type 0
Sets trip value before after =
    (entry_of trip after ≡ some value)
    × ((other : String) → other ≢ trip → entry_of other after ≡ entry_of other before)

pub with_entry-Sets :
    (trip : String) (value : Json) (entries : List (String × Json))
    → Sets trip value entries (with_entry trip value entries)
unfolding with_entry
with_entry-Sets trip value [] =
    (ground (arith, eq_iff trip trip), λ other h. ground (arith, h, eq_iff trip other))
with_entry-Sets trip value ((key, old) ∷ entries) =
    let (here, others) = with_entry-Sets trip value entries in
    elim (Bool-cases (str_eq key trip)) [
      | inl e ↦ rw e (
        ground (arith, eq_iff trip trip),
        λ other h. ground (arith, e, h, eq_iff trip other, eq_iff key other, eq_iff key trip),
      )
      | inr e ↦ rw e (ground (arith, e, here), λ other h. ground (arith, others other h))
    ]
