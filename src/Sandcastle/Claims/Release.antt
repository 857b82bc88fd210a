-- ===== src/Sandcastle/Claims/Release.antt =====
-- authorizeAutopilotTasks labels only Tasks of opted-in Features, as their checks say.
use flash_trips.Prelude.{
  ℕ, String, Bool, true, false, Option, none, some, List, [], ◌∷◌, ◌++◌, ◌&&◌, any, ◌≡◌, refl,
  Result, ok, err, ap, ◌∙◌, subst, ◌≢◌, ◌⊎◌, inl, inr, str_eq, eq_iff, show, sym, not, arith,
  Bool-cases,
}
use flash_trips.Sandcastle.World.{World}
use flash_trips.Sandcastle.Environment.{Settings, SettingError}
use flash_trips.Sandcastle.TaskEnvironment.{resolve_task_environment}
use flash_trips.Sandcastle.Autopilot.{
  AutopilotTask, AutopilotFeature, Authorization, select_autopilot_authorizations, is_gated,
}
use flash_trips.Sandcastle.Autopilot.Laws.{
  In, In-append, IsOptedIn, IsReady, Released, select_autopilot_authorizations_iff,
}
use flash_trips.Sandcastle.Checkpoints.{Run, Deed, labelled}
use flash_trips.Sandcastle.Claims.{
  has_environment, is_truncated, all_tasks, find_task, lacks_environment, authorize_one,
  authorize_each, authorize_read, authorize_autopilot_tasks, features_with_tasks,
}
use flash_trips.Sandcastle.Claims.Promotion.{
  with_deeds, deed_of, set_label-deeds, In-deed_of, with_deeds_twice,
}

module _ (w : World) (settings : Settings) where
  -- The environment of the first Task with this number is missing.
  abbrev pub is_lacking : List AutopilotTask → String → Bool
  is_lacking tasks id = lacks_environment settings (find_task id tasks)

  -- What the loop does for an authorization.
  abbrev Follows : List AutopilotTask → Authorization → Deed → Type 0
  Follows tasks a d =
      (label : String) × (d ≡ labelled a.id (some label))
      × (w.set_label a.id (some label) ≡ true)
      × (((label ≡ "agent:blocked") × (is_lacking tasks a.id ≡ true))
          ⊎ ((label ≡ a.label) × ((a.label ≢ "agent:implement") ⊎ (is_lacking tasks a.id ≡ false))))

  abbrev AuthorizedBy : List AutopilotTask → List Authorization → Deed → Type 0
  AuthorizedBy tasks given d = (a : Authorization) × In a given × Follows tasks a d

  abbrev Extends : Run → Run → (Deed → Type 0) → Type 0
  Extends r r' P =
      (new : List Deed) × (r' ≡ with_deeds w settings new r) × ((d : Deed) → In d new → P d)

  authorize_one-Follows :
      (tasks : List AutopilotTask) (a : Authorization) (r : Run)
      → Extends r (authorize_one w settings tasks a r) (Follows tasks a)
  unfolding authorize_one
  authorize_one-Follows tasks a r =
      elim (Bool-cases (str_eq a.label "agent:implement" && is_lacking tasks a.id)) [
        | inl e ↦ rw e (
          deed_of w settings a.id "agent:blocked",
          set_label-deeds w settings a.id "agent:blocked" r,
          λ d m.
              let (same, taken) = (In-deed_of w settings d a.id "agent:blocked").0 m in
              ("agent:blocked", same, taken, inl (refl, ground (arith, e))),
        )
        | inr e ↦ rw e (
          deed_of w settings a.id a.label,
          set_label-deeds w settings a.id a.label r,
          λ d m.
              let (same, taken) = (In-deed_of w settings d a.id a.label).0 m in
              (
                a.label,
                same,
                taken,
                inr (refl, ground (arith, e, eq_iff a.label "agent:implement")),
              ),
        )
      ]

  authorize_each-AuthorizedBy :
      (tasks : List AutopilotTask) (given : List Authorization) (r : Run)
      → Extends r (authorize_each w settings tasks given r) (AuthorizedBy tasks given)
  unfolding authorize_each
  authorize_each-AuthorizedBy tasks [] r = ([], refl, λ d m. absurd m)
  authorize_each-AuthorizedBy tasks (a ∷ more) r =
      let (old, e, first) = authorize_one-Follows tasks a r in
      let (new, f, later) =
        authorize_each-AuthorizedBy tasks more (authorize_one w settings tasks a r) in
      (
        new ++ old,
        f ∙ ap (with_deeds w settings new) e ∙ with_deeds_twice w settings new old r,
        λ d m. elim ((In-append d new old).0 m) [
          | inl k ↦ let (b, n, rest) = later d k in (b, inr n, rest)
          | inr k ↦ (a, inl refl, first d k)
        ],
      )

  -- The first Task of the list with the number.
  pub data IsFirst (id : String) : List AutopilotTask → AutopilotTask → Type 0 where
    here : (t : AutopilotTask) (ts : List AutopilotTask) → show t.id ≡ id → IsFirst id (t ∷ ts) t
    later :
        (u t : AutopilotTask) (ts : List AutopilotTask)
        → show u.id ≢ id
        → IsFirst id ts t
        → IsFirst id (u ∷ ts) t

  find_task_cases :
      (id : String) (tasks : List AutopilotTask)
      → ((find_task id tasks ≡ none) × ((t : AutopilotTask) → In t tasks → show t.id ≢ id))
        ⊎ ((t : AutopilotTask) × (find_task id tasks ≡ some t) × IsFirst id tasks t)
  unfolding find_task
  find_task_cases id [] = inl (refl, λ t m. absurd m)
  find_task_cases id (u ∷ ts) = elim (Bool-cases (str_eq (show u.id) id)) [
    | inl e ↦ inr (u, ground (arith, e), here u ts ((eq_iff (show u.id) id).0 e))
    | inr e ↦
        let other : show u.id ≢ id = λ k. ground (arith, e, (eq_iff (show u.id) id).1 k) in
        elim (find_task_cases id ts) [
          | inl (missing, none_there) ↦ inl (
            ground (arith, e, missing),
            λ t m. elim m [
              | inl same ↦ λ k. other (ap (λ (x : AutopilotTask). show x.id) (sym same) ∙ k)
              | inr n ↦ none_there t n
            ],
          )
          | inr (t, found, first) ↦ inr (t, ground (arith, e, found), later u t ts other first)
        ]
  ]

  -- The first Task with the number asks for variables that cannot be given, or for ones that can.
  abbrev pub Lacks : List AutopilotTask → String → Type 0
  Lacks tasks id =
      (t : AutopilotTask) × IsFirst id tasks t
      × ((e : SettingError) × (resolve_task_environment settings t.body ≡ err e))

  abbrev pub Has : List AutopilotTask → String → Type 0
  Has tasks id =
      (t : AutopilotTask) × IsFirst id tasks t
      × ((env : List (String × String)) × (resolve_task_environment settings t.body ≡ ok env))

  environment_cases :
      (tasks : List AutopilotTask) (t : AutopilotTask)
      → (o : Result SettingError (List (String × String)))
      → resolve_task_environment settings t.body ≡ o
      → (not (has_environment o) ≡ true
          → (e : SettingError) × (resolve_task_environment settings t.body ≡ err e))
        × (not (has_environment o) ≡ false
            → (env : List (String × String)) × (resolve_task_environment settings t.body ≡ ok env))
  environment_cases tasks t (err e) h = (λ k. (e, h), λ k. cc)
  environment_cases tasks t (ok env) h = (λ k. cc, λ k. (env, h))

  is_lacking_sound :
      (tasks : List AutopilotTask) (id : String) → is_lacking tasks id ≡ true → Lacks tasks id
  is_lacking_sound tasks id h = elim (find_task_cases id tasks) [
    | inl (missing, _) ↦ absurd (ground (arith, missing, h))
    | inr (t, found, first) ↦
        let cases = environment_cases tasks t (resolve_task_environment settings t.body) refl in
        (t, first, cases.0 (ap (lacks_environment settings) (sym found) ∙ h))
  ]

  Has-of_test :
      (tasks : List AutopilotTask) (t : AutopilotTask)
      → In t tasks
      → is_lacking tasks (show t.id) ≡ false
      → Has tasks (show t.id)
  Has-of_test tasks t m h = elim (find_task_cases (show t.id) tasks) [
    | inl (_, none_there) ↦ absurd (none_there t m refl)
    | inr (u, found, first) ↦
        let cases = environment_cases tasks u (resolve_task_environment settings u.body) refl in
        (u, first, cases.1 (ap (lacks_environment settings) (sym found) ∙ h))
  ]

  In-all_tasks :
      (fs : List AutopilotFeature) (f : AutopilotFeature) (t : AutopilotTask)
      → In f fs
      → In t f.tasks
      → In t (all_tasks fs)
  unfolding all_tasks
  In-all_tasks [] f t m n = absurd m
  In-all_tasks (g ∷ gs) f t (inl e) n =
      (In-append t g.tasks (all_tasks gs)).1
        (inl (subst (λ (x : AutopilotFeature). In t x.tasks) e n))
  In-all_tasks (g ∷ gs) f t (inr m) n =
      (In-append t g.tasks (all_tasks gs)).1 (inr (In-all_tasks gs f t m n))

  -- Why a Task has its label.
  abbrev pub Justification : List AutopilotTask → AutopilotTask → String → Type 0
  Justification tasks t label =
      ((label ≡ "agent:blocked") × ((is_gated t ≡ true) ⊎ Lacks tasks (show t.id)))
      ⊎ ((label ≡ "agent:queued") × (is_gated t ≡ false) × (t.blocked_by ≢ []))
      ⊎ ((label ≡ "agent:implement")
          × (is_gated t ≡ false)
          × (t.blocked_by ≡ [])
          × Has tasks (show t.id))

  -- A ready Task of an opted-in Feature, and the label that it got.
  pub record IsAuthorized (fs : List AutopilotFeature) (d : Deed) : Type 0 where
    pub feature : AutopilotFeature
    pub task : AutopilotTask
    pub label : String
    pub in_features : In feature fs
    pub opted_in : IsOptedIn feature
    pub in_tasks : In task feature.tasks
    pub ready : IsReady task
    pub deed : d ≡ labelled (show task.id) (some label)
    pub taken : w.set_label (show task.id) (some label) ≡ true
    pub justified : Justification (all_tasks fs) task label

  justification_lem :
      (tasks : List AutopilotTask) (t : AutopilotTask) (a : Authorization) (label : String)
      → Released t a
      → In t tasks
      → ((label ≡ "agent:blocked") × (is_lacking tasks (show t.id) ≡ true))
        ⊎ ((label ≡ a.label)
            × ((a.label ≢ "agent:implement") ⊎ (is_lacking tasks (show t.id) ≡ false)))
      → Justification tasks t label
  justification_lem tasks t a label released m (inl (e, lacking)) =
      inl (e, inr (is_lacking_sound tasks (show t.id) lacking))
  justification_lem tasks t a label (inl (gated, b, reason)) m (inr (e, k)) = inl (e ∙ b, inl gated)
  justification_lem tasks t a label (inr (inl (clear, blocked, b, reason))) m (inr (e, k)) =
      inr (inl (e ∙ b, clear, blocked))
  justification_lem tasks t a label (inr (inr (clear, unblocked, b, reason))) m (inr (e, inl k)) =
      absurd (k b)
  justification_lem tasks t a label (inr (inr (clear, unblocked, b, reason))) m (inr (e, inr k)) =
      inr (inr (e ∙ b, clear, unblocked, Has-of_test tasks t m k))

  AuthorizedBy-IsAuthorized :
      (fs : List AutopilotFeature) (d : Deed)
      → AuthorizedBy (all_tasks fs) (select_autopilot_authorizations fs) d
      → IsAuthorized fs d
  AuthorizedBy-IsAuthorized fs d (a, m, (label, same, taken, reason)) =
      let (f, t, in_fs, opted, in_ts, ready, id, released) =
        (select_autopilot_authorizations_iff fs a).0 m in
      record {
        feature = f;
        task = t;
        label = label;
        in_features = in_fs;
        opted_in = opted;
        in_tasks = in_ts;
        ready = ready;
        deed = same ∙ ap (λ i. labelled i (some label)) id;
        taken = subst (λ i. w.set_label i (some label) ≡ true) id taken;
        justified =
            justification_lem (all_tasks fs) t a label released (In-all_tasks fs f t in_fs in_ts) (
              subst
                (λ i.
                  ((label ≡ "agent:blocked") × (is_lacking (all_tasks fs) i ≡ true))
                  ⊎ ((label ≡ a.label)
                      × ((a.label ≢ "agent:implement") ⊎ (is_lacking (all_tasks fs) i ≡ false))))
                id reason);
      }

  authorize_read_lem :
      (o : Option (List AutopilotFeature)) (r : Run)
      → Extends r
          (authorize_read w settings o r)
          (λ d. (fs : List AutopilotFeature) × (o ≡ some fs) × IsAuthorized fs d)
  authorize_read_lem none r = ([], refl, λ d m. absurd m)
  authorize_read_lem (some fs) r = elim (Bool-cases (any is_truncated fs)) [
    | inl e ↦ rw e ([], refl, λ d m. absurd m)
    | inr e ↦
        let (new, same, each) =
          authorize_each-AuthorizedBy (all_tasks fs) (select_autopilot_authorizations fs) r in
        rw e (new, same, λ d m. (fs, refl, AuthorizedBy-IsAuthorized fs d (each d m)))
  ]

  -- Whatever the tracker answers, authorizing changes nothing but labels, and each label that it sets
  -- is of an open, ready leaf of an opted-in Feature: blocked if its gates are not cleared or the
  -- first Task with its number lacks a variable, queued only behind an open blocker, and for
  -- implementation only without gates and blockers, where the variables of that first Task can be
  -- given.
  pub authorize_autopilot_tasks-IsAuthorized :
      (features : Option (List AutopilotFeature)) (tasks_of : ℕ → Option (List AutopilotTask))
      (r : Run)
      → (new : List Deed) × (authorize_autopilot_tasks w settings features tasks_of r
          ≡ with_deeds w settings new r)
        × ((d : Deed)
            → In d new
            → (fs : List AutopilotFeature) × (features_with_tasks features tasks_of ≡ some fs)
              × IsAuthorized fs d)
  unfolding authorize_autopilot_tasks
  authorize_autopilot_tasks-IsAuthorized features tasks_of r =
      authorize_read_lem (features_with_tasks features tasks_of) r
