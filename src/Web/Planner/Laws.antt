-- ===== src/Web/Planner/Laws.antt =====
-- What starting a Run may change on the planner's page.
use flash_trips.Prelude.{
  String, Bool, true, Option, none, some, [], ◌∷◌, ◌≡◌, refl, ap, sym, subst, ◌∙◌, ◌⊎◌, inl, inr,
  arith, eq_iff, Bool-cases, Option-cases,
}
use flash_trips.Json.{Json, string_member}
use flash_trips.Web.Planner.Shapes.{
  IsRun, IsPlanRevision, is_run-IsRun, is_plan_revision-IsPlanRevision, Sets, with_entry-Sets,
}
use flash_trips.Web.Planner.{
  Page, Call, Answer, run_call, plan_revision_call, start_run_call, is_run, is_plan_revision,
  is_one_of, with_entry, fails, read_plan_revision, set_plan_revision, read_run, set_run,
  observe_run, start_run, text_or_empty,
}

abbrev Result : Option Answer → Json → Type 0
Result o value = o ≡ some (record { is_ok = true; body = some value })

read_plan_revision_sound :
    (o : Option Answer) (revision : Json)
    → read_plan_revision o ≡ some (some revision)
    → Result o revision × (is_plan_revision revision ≡ true)
unfolding read_plan_revision
read_plan_revision_sound none revision h = cc
read_plan_revision_sound (some answer) revision h = ground arith

module _ (fetcher : Call → Option Answer) (trip : String) where
  -- The page's Runs and revisions are as they were.
  abbrev pub Unchanged : Page → Page → Type 0
  Unchanged page after = (after.runs ≡ page.runs) × (after.plan_revisions ≡ page.plan_revisions)

  -- The Trip's Run is the one that the backend answered for an accepted Run, and the Trip's revision
  -- is as it was or, if that Run succeeded, the current one; all have their shapes, and other Trips are
  -- as they were.
  pub record Recorded (page after : Page) : Type 0 where
    pub accepted : Json
    pub run : Json
    pub started : Result (fetcher (start_run_call trip page.csrf_token)) accepted
    pub accepted_shape : IsRun accepted
    pub accepted_id : String
    pub same_id : string_member "id" accepted ≡ some accepted_id
    pub observed : Result (fetcher (run_call accepted_id)) run
    pub run_shape : IsRun run
    pub runs : Sets trip run page.runs after.runs
    pub plan_revisions :
        (after.plan_revisions ≡ page.plan_revisions)
        ⊎ ((revision : Json) × (string_member "status" run ≡ some "Succeeded")
            × Result (fetcher (plan_revision_call trip)) revision
            × IsPlanRevision revision
            × Sets trip revision page.plan_revisions after.plan_revisions)

  -- What is shared by the two requests on a Run.
  read_run_cases :
      (refused invalid : String) (o : Option Answer) (next : Json → Page → Page) (page : Page)
      → Unchanged page (read_run refused invalid o next page)
        ⊎ ((value : Json) × Result o value
            × (is_run value ≡ true)
            × (read_run refused invalid o next page ≡ next value page))
  unfolding read_run
  read_run_cases refused invalid none next page = inl (refl, refl)
  read_run_cases refused invalid (some answer) next page = elim (Bool-cases answer.is_ok) [
    | inr e ↦ inl (ground (arith, e))
    | inl e ↦ elim (Option-cases answer.body) [
      | inl b ↦ inl (ground (arith, e, b))
      | inr (value, b) ↦ elim (Bool-cases (is_run value)) [
        | inl shape ↦ inr (value, ground (arith, e, b), shape, ground (arith, e, b, shape))
        | inr shape ↦ inl (ground (arith, e, b, shape))
      ]
    ]
  ]

  -- The page after the current revision was asked for.
  abbrev Revised : Option Answer → Page → Page → Type 0
  Revised o page after =
      (after.plan_revisions ≡ page.plan_revisions)
      ⊎ ((revision : Json) × Result o revision
          × (is_plan_revision revision ≡ true)
          × (after.plan_revisions ≡ with_entry trip revision page.plan_revisions))

  set_plan_revision_lem :
      (o : Option Answer) (r : Option (Option Json)) (page : Page)
      → read_plan_revision o ≡ r
      → ((set_plan_revision trip r page).runs ≡ page.runs)
        × Revised o page (set_plan_revision trip r page)
  set_plan_revision_lem o none page h = (refl, inl refl)
  set_plan_revision_lem o (some none) page h = (refl, inl refl)
  set_plan_revision_lem o (some (some revision)) page h =
      let (answered, shape) = read_plan_revision_sound o revision h in
      (refl, inr (revision, answered, shape, refl))

  abbrev succeeded : Json → Bool
  succeeded run = is_one_of ("Succeeded" ∷ []) (string_member "status" run)

  set_run_lem :
      (run : Json) (page : Page)
      → ((set_run fetcher trip run page).runs ≡ with_entry trip run page.runs)
        × (((set_run fetcher trip run page).plan_revisions ≡ page.plan_revisions)
            ⊎ ((revision : Json) × (succeeded run ≡ true)
                × Result (fetcher (plan_revision_call trip)) revision
                × (is_plan_revision revision ≡ true)
                × ((set_run fetcher trip run page).plan_revisions
                    ≡ with_entry trip revision page.plan_revisions)))
  unfolding set_run
  set_run_lem run page =
      let recorded : Page = record page { runs = with_entry trip run page.runs } in
      elim (Bool-cases (succeeded run)) [
        | inr e ↦ ground (arith, e)
        | inl e ↦
            let lem = set_plan_revision_lem (fetcher (plan_revision_call trip)) _ recorded refl in
            ground (arith, e, lem)
      ]

  succeeded_lem : (o : Option String) → is_one_of ("Succeeded" ∷ []) o ≡ true → o ≡ some "Succeeded"
  succeeded_lem none h = cc
  succeeded_lem (some s) h = ground (arith, h, eq_iff s "Succeeded", eq_iff "Succeeded" s)

  observed_lem :
      (accepted : Json) (page : Page)
      → Result (fetcher (start_run_call trip page.csrf_token)) accepted
      → is_run accepted ≡ true
      → Unchanged page (observe_run fetcher trip accepted (fails "" page))
        ⊎ Recorded page (observe_run fetcher trip accepted (fails "" page))
  unfolding observe_run
  observed_lem accepted page started shape =
      elim (read_run_cases "The Run status could not be read."
        "The Run status response was invalid."
        (fetcher (run_call (text_or_empty (string_member "id" accepted)))) (set_run fetcher trip)
        (fails "" page)) [
          | inl same ↦ inl same
          | inr (run, observed, run_shape, same) ↦
              let (runs, revisions) = set_run_lem run (fails "" page) in
              let (id, at) = (is_run-IsRun accepted shape).id in
              inr (record {
                accepted = accepted;
                run = run;
                started = started;
                accepted_shape = is_run-IsRun accepted shape;
                accepted_id = id;
                same_id = at;
                observed =
                    subst (λ o. Result (fetcher (run_call (text_or_empty o))) run) at observed;
                run_shape = is_run-IsRun run run_shape;
                runs =
                    subst (Sets trip run page.runs)
                      (sym (ap (λ (after : Page). after.runs) same ∙ runs))
                      (with_entry-Sets trip run page.runs);
                plan_revisions = elim revisions [
                  | inl kept ↦ inl (ap (λ (after : Page). after.plan_revisions) same ∙ kept)
                  | inr (revision, succeeded_run, answered, revision_shape, set) ↦ inr (
                    revision,
                    succeeded_lem (string_member "status" run) succeeded_run,
                    answered,
                    is_plan_revision-IsPlanRevision revision revision_shape,
                    subst (Sets trip revision page.plan_revisions)
                        (sym (ap (λ (after : Page). after.plan_revisions) same ∙ set))
                        (with_entry-Sets trip revision page.plan_revisions),
                  )
                ];
              })
        ]

  -- Starting a Run changes no Run and no revision on the page, or the Trip's Run is then the one that
  -- the backend gave for the accepted one and, if that one succeeded, the Trip's revision may be the
  -- current one that the backend gave; every other Trip has what it had. The accepted and the
  -- recorded Run, and the revision, have the properties of a Run and of a Plan Revision, each of its
  -- type and with a known status and kind.
  pub start_run_cases :
      (page : Page)
      → Unchanged page (start_run fetcher trip page) ⊎ Recorded page (start_run fetcher trip page)
  unfolding start_run
  start_run_cases page =
      elim (read_run_cases "The Run could not be started." "The Run response was invalid."
        (fetcher (start_run_call trip page.csrf_token)) (observe_run fetcher trip)
        (fails "" page)) [
          | inl same ↦ inl same
          | inr (accepted, started, shape, same) ↦
              subst (λ (after : Page). Unchanged page after ⊎ Recorded page after) (sym same)
                (observed_lem accepted page started shape)
        ]
