-- ===== src/Sandcastle/Autopilot/Laws.antt =====
-- A Task is released exactly when its Feature opted in and the Task itself is ready.
use flash_trips.Prelude.{
  ℕ, String, Bool, true, false, Option, none, some, List, [], ◌∷◌, ◌++◌, ◌≡◌, refl, ◌≢◌, subst, All,
  includes, ◌⊎◌, ◌↔◌, inl, inr, arith, ltb, Bool-cases, any, show,
}
use flash_trips.Sandcastle.Pipeline.{implementation_labels}
use flash_trips.Sandcastle.Autopilot.{
  AutopilotTask, AutopilotFeature, Authorization, insert, sort, open_tasks, skips_feature,
  skips_task, authorize_task, each, authorize_feature, select_autopilot_authorizations, is_gated,
  gate_reason, release_label, has_label, refused_labels,
}

-- The element is one of the list's.
abbrev pub In : {A : Type 0} → A → List A → Type 0
In x [] = ⊥
In x (y ∷ ys) = (x ≡ y) ⊎ In x ys

pub In-append : {A : Type 0} (x : A) (xs ys : List A) → In x (xs ++ ys) ↔ (In x xs ⊎ In x ys)
In-append x [] ys = (λ h. inr h, λ h. elim h [ inl e ↦ absurd e | inr m ↦ m ])
In-append x (y ∷ xs) ys = ground (arith, In-append x xs ys)

module _ {A : Type 0} (id_of : A → ℕ) where
  In-insert : (x y : A) (ys : List A) → In x (insert id_of y ys) ↔ ((x ≡ y) ⊎ In x ys)
  unfolding insert
  In-insert x y [] = ground arith
  In-insert x y (z ∷ zs) = elim (Bool-cases (ltb (id_of z) (id_of y))) [
    | inl e ↦ ground (arith, In-insert x y zs)
    | inr e ↦ ground (arith, In-insert x y zs)
  ]

  pub In-sort : (x : A) (xs : List A) → In x (sort id_of xs) ↔ In x xs
  unfolding sort
  In-sort x [] = ground arith
  In-sort x (y ∷ ys) = ground (arith, In-insert x y (sort id_of ys), In-sort x ys)

In-open_tasks :
    (x : AutopilotTask) (tasks : List AutopilotTask)
    → In x (open_tasks tasks) ↔ (In x tasks × (x.is_open ≡ true))
unfolding open_tasks
In-open_tasks x [] = ground arith
In-open_tasks x (y ∷ ys) = elim (Bool-cases y.is_open) [
  | inl e ↦ ground (arith, In-open_tasks x ys)
  | inr e ↦ ground (arith, In-open_tasks x ys)
]

In-each :
    {A B : Type 0} (f : A → List B) (b : B) (xs : List A)
    → In b (each f xs) ↔ ((x : A) × In x xs × In b (f x))
unfolding each
In-each f b [] = (λ h. absurd h, λ (_, m, _). m)
In-each {A} f b (x ∷ xs) = (
  λ h. elim ((In-append b (f x) (each f xs)).0 h) [
    | inl m ↦ (x, inl refl, m)
    | inr m ↦ let (y, n, k) = (In-each f b xs).0 m in (y, inr n, k)
  ],
  λ (y, n, k). (In-append b (f x) (each f xs)).1 (elim n [
    | inl e ↦ inl (subst (λ z. In b (f z)) e k)
    | inr m ↦ inr ((In-each f b xs).1 (y, m, k))
  ]),
)

-- A Feature that opted in and was read completely.
pub record IsOptedIn (f : AutopilotFeature) : Type 0 where
  pub autopilot : includes "agent:autopilot" f.labels ≡ true
  pub labels_complete : f.labels_truncated ≡ false
  pub tasks_complete : f.tasks_truncated ≡ false

-- An open leaf Task that is ready for agents and in no other state of the workflow.
pub record IsReady (t : AutopilotTask) : Type 0 where
  pub is_open : t.is_open ≡ true
  pub ready : includes "ready-for-agent" t.labels ≡ true
  pub not_refused : All (λ label. includes label t.labels ≡ false) refused_labels
  pub not_in_pipeline : All (λ label. includes label t.labels ≡ false) implementation_labels
  pub is_leaf : t.sub_issue_count ≡ 0
  pub labels_complete : t.labels_truncated ≡ false
  pub blockers_complete : t.blockers_truncated ≡ false

-- What a ready Task is released as: blocked by a gate that is not cleared, else queued behind an
-- open blocker, else for implementation.
abbrev pub Released : AutopilotTask → Authorization → Type 0
Released t a =
    ((is_gated t ≡ true) × (a.label ≡ "agent:blocked") × (a.reason ≡ some (gate_reason t.id)))
    ⊎ ((is_gated t ≡ false) × (t.blocked_by ≢ []) × (a.label ≡ "agent:queued") × (a.reason ≡ none))
    ⊎ ((is_gated t ≡ false)
        × (t.blocked_by ≡ [])
        × (a.label ≡ "agent:implement")
        × (a.reason ≡ none))

pub any-false :
    {A : Type 0} (p : A → Bool) (xs : List A) → (any p xs ≡ false) ↔ All (λ x. p x ≡ false) xs
any-false p [] = ground arith
any-false p (x ∷ xs) = ground (arith, any-false p xs)

skips_feature-IsOptedIn : (f : AutopilotFeature) → (skips_feature f ≡ false) ↔ IsOptedIn f
skips_feature-IsOptedIn f = (
  λ h. record {
    autopilot = ground arith;
    labels_complete = ground arith;
    tasks_complete = ground arith;
  },
  λ r. ground (arith, r.autopilot, r.labels_complete, r.tasks_complete),
)

ready_is_kept :
    (t : AutopilotTask)
    → has_label t "ready-for-agent" ≡ true
    → any (has_label t) refused_labels ≡ false
    → any (has_label t) implementation_labels ≡ false
    → t.sub_issue_count ≡ 0
    → t.labels_truncated ≡ false
    → t.blockers_truncated ≡ false
    → skips_task t ≡ false
ready_is_kept t a b c d e f = ground (arith, a, b, c, d, e, f)

skips_task-IsReady : (t : AutopilotTask) → ((skips_task t ≡ false) × (t.is_open ≡ true)) ↔ IsReady t
skips_task-IsReady t = (
  λ (h, o). record {
    is_open = o;
    ready = ground arith;
    not_refused = (any-false (has_label t) refused_labels).0 (ground arith);
    not_in_pipeline = (any-false (has_label t) implementation_labels).0 (ground arith);
    is_leaf = ground arith;
    labels_complete = ground arith;
    blockers_complete = ground arith;
  },
  λ r. (
    ready_is_kept t r.ready ((any-false (has_label t) refused_labels).1 r.not_refused)
        ((any-false (has_label t) implementation_labels).1 r.not_in_pipeline) r.is_leaf
        r.labels_complete r.blockers_complete,
    r.is_open,
  ),
)

In-authorization :
    (a : Authorization) (id label : String) (reason : Option String)
    → In a (record { id = id; label = label; reason = reason } ∷ [])
      ↔ ((a.id ≡ id) × (a.label ≡ label) × (a.reason ≡ reason))
In-authorization a id label reason = ground arith

authorize_task-Released :
    (t : AutopilotTask) (a : Authorization)
    → In a (authorize_task t) ↔ ((skips_task t ≡ false) × (a.id ≡ show t.id) × Released t a)
unfolding authorize_task
authorize_task-Released t a = elim (Bool-cases (skips_task t)) [
  | inl e ↦ ground (arith)
  | inr e ↦ elim (Bool-cases (is_gated t)) [
    | inl g ↦
        ground (arith, In-authorization a (show t.id) "agent:blocked" (some (gate_reason t.id)))
    | inr g ↦ ground (arith, In-authorization a (show t.id) (release_label t.blocked_by) none)
  ]
]

abbrev FromTask : Authorization → AutopilotTask → Type 0
FromTask a t = IsReady t × (a.id ≡ show t.id) × Released t a

authorize_tasks-Released :
    (tasks : List AutopilotTask) (a : Authorization)
    → In a (each authorize_task (sort (λ (task : AutopilotTask). task.id) (open_tasks tasks)))
      ↔ ((t : AutopilotTask) × In t tasks × FromTask a t)
authorize_tasks-Released tasks a = (
  λ h.
      let (t, m, k) = (In-each authorize_task a _).0 h in
      let (n, o) = (In-open_tasks t tasks).0 ((In-sort _ t (open_tasks tasks)).0 m) in
      let (kept, i, r) = (authorize_task-Released t a).0 k in
      (t, n, ((skips_task-IsReady t).0 (kept, o), i, r)),
  λ (t, n, (ready, i, r)).
      let (kept, o) = (skips_task-IsReady t).1 ready in
      (In-each authorize_task a _).1 (
        t,
        (In-sort _ t (open_tasks tasks)).1 ((In-open_tasks t tasks).1 (n, o)),
        (authorize_task-Released t a).1 (kept, i, r),
      ),
)

authorize_feature-Released :
    (f : AutopilotFeature) (a : Authorization)
    → In a (authorize_feature f)
      ↔ (IsOptedIn f × ((t : AutopilotTask) × In t f.tasks × FromTask a t))
unfolding authorize_feature
authorize_feature-Released f a = elim (Bool-cases (skips_feature f)) [
  | inl e ↦ ground (arith, (skips_feature-IsOptedIn f).1)
  | inr e ↦ ground (arith, (skips_feature-IsOptedIn f).0 e, authorize_tasks-Released f.tasks a)
]

-- A Task is released exactly if it is an open, ready leaf of a Feature that opted in, and as what
-- its gates and open blockers say; nothing else is released.
pub select_autopilot_authorizations_iff :
    (features : List AutopilotFeature) (a : Authorization)
    → In a (select_autopilot_authorizations features) ↔ (
        (f : AutopilotFeature) × (t : AutopilotTask) × In f features
        × IsOptedIn f
        × In t f.tasks
        × IsReady t
        × (a.id ≡ show t.id)
        × Released t a)
unfolding select_autopilot_authorizations
select_autopilot_authorizations_iff features a = (
  λ h.
      let (f, m, k) = (In-each authorize_feature a _).0 h in
      let (opted, (t, n, (ready, i, r))) = (authorize_feature-Released f a).0 k in
      (f, t, (In-sort _ f features).0 m, opted, n, ready, i, r),
  λ (f, t, m, opted, n, ready, i, r). (In-each authorize_feature a _).1 (
    f,
    (In-sort _ f features).1 m,
    (authorize_feature-Released f a).1 (opted, (t, n, (ready, i, r))),
  ),
)
