-- ===== src/Sandcastle/Claims/Promotion.antt =====
-- promoteUnblockedQueuedIssues and authorizeAutopilotTasks label exactly the Tasks that are ready.
use flash_trips.Prelude.{
  String, true, false, some, List, [], ◌∷◌, ◌++◌, append_assoc, ◌≡◌, refl, sym, ap, ◌∙◌, subst, ◌↔◌,
  inl, inr, All, includes, show, arith, Bool-cases, if◌then◌else◌, Result, ok, err,
}
use flash_trips.Sandcastle.World.{World}
use flash_trips.Sandcastle.Environment.{Settings, SettingError}
use flash_trips.Sandcastle.TaskEnvironment.{resolve_task_environment}
use flash_trips.Sandcastle.Autopilot.Laws.{In, In-append, any-false}
use flash_trips.Sandcastle.Checkpoints.{Run, Deed, labelled}
use flash_trips.Sandcastle.Claims.{
  refused_for_promotion, set_label, QueuedIssue, is_promotable, promote_each, has_environment,
  promote_unblocked_queued_issues,
}
use flash_trips.Sandcastle.Claims.Laws.{GatesAreClear, Has, Lacks}

-- What a Task of the queue must be to be promoted.
pub record IsPromotable (settings : Settings) (q : QueuedIssue) : Type 0 where
  pub ready : Has q.labels "ready-for-agent"
  pub queued : Has q.labels "agent:queued"
  pub not_refused : All (Lacks q.labels) refused_for_promotion
  pub not_blocked : q.blocked_by ≡ []
  pub labels_complete : q.labels_truncated ≡ false
  pub blockers_complete : q.blockers_truncated ≡ false
  pub gates : GatesAreClear q.body q.labels
  pub environment :
      (env : List (String × String)) × (resolve_task_environment settings q.body ≡ ok env)

module _ (w : World) (settings : Settings) where
  has_environment_iff :
      (o : Result SettingError (List (String × String)))
      → (has_environment o ≡ true) ↔ ((env : List (String × String)) × (o ≡ ok env))
  has_environment_iff (err e) = (λ h. cc, λ (env, h). cc)
  has_environment_iff (ok env) = (λ h. (env, refl), λ h. refl)

  is_promotable_iff :
      (q : QueuedIssue) → (is_promotable settings q ≡ true) ↔ IsPromotable settings q
  unfolding is_promotable
  is_promotable_iff q = (
    λ h. record {
      ready = ground (arith, h);
      queued = ground (arith, h);
      not_refused =
          (any-false (λ label. includes label q.labels) refused_for_promotion).0
            (ground (arith, h));
      not_blocked = ground (arith, h);
      labels_complete = ground (arith, h);
      blockers_complete = ground (arith, h);
      gates = ground (arith, h);
      environment =
          (has_environment_iff (resolve_task_environment settings q.body)).0 (ground (arith, h));
    },
    λ c. ground (
      arith,
      c.ready,
      c.queued,
      (any-false (λ label. includes label q.labels) refused_for_promotion).1 c.not_refused,
      c.not_blocked,
      c.labels_complete,
      c.blockers_complete,
      c.gates,
      (has_environment_iff (resolve_task_environment settings q.body)).1 c.environment,
    ),
  )

  -- The run with these deeds more, and nothing else changed.
  abbrev pub with_deeds : List Deed → Run → Run
  with_deeds new r = record r { deeds = new ++ r.deeds }

  -- The label that a call sets, where the tracker takes it.
  abbrev pub deed_of : String → String → List Deed
  deed_of id label = if w.set_label id (some label) then labelled id (some label) ∷ [] else []

  pub set_label-deeds :
      (id label : String) (r : Run) → set_label w id label r ≡ with_deeds (deed_of id label) r
  set_label-deeds id label r = elim (Bool-cases (w.set_label id (some label))) [
    | inl e ↦ rw e refl
    | inr e ↦ rw e refl
  ]

  pub In-deed_of :
      (d : Deed) (id label : String)
      → In d (deed_of id label)
        ↔ ((d ≡ labelled id (some label)) × (w.set_label id (some label) ≡ true))
  In-deed_of d id label = ground arith

  pub with_deeds_twice :
      (new old : List Deed) (r : Run)
      → with_deeds new (with_deeds old r) ≡ with_deeds (new ++ old) r
  with_deeds_twice new old r =
      ap (λ (ds : List Deed). record r { deeds = ds }) (sym (append_assoc new old r.deeds))

  -- The label that a promotable Task gets.
  pub record LabelledFor (q : QueuedIssue) (d : Deed) : Type 0 where
    pub promotable : IsPromotable settings q
    pub deed : d ≡ labelled (show q.id) (some "agent:implement")
    pub taken : w.set_label (show q.id) (some "agent:implement") ≡ true

  -- A Task of the list that is promoted.
  abbrev pub IsPromoted : List QueuedIssue → Deed → Type 0
  IsPromoted queued d = (q : QueuedIssue) × In q queued × LabelledFor q d

  abbrev Promotes : List QueuedIssue → Run → Run → Type 0
  Promotes queued r r' =
      (new : List Deed) × (r' ≡ with_deeds new r) × ((d : Deed) → In d new ↔ IsPromoted queued d)

  promoted_first :
      (q : QueuedIssue) (r : Run)
      → Promotes
          (q ∷ [])
          r
          (if is_promotable settings q then set_label w (show q.id) "agent:implement" r else r)
  promoted_first q r = elim (Bool-cases (is_promotable settings q)) [
    | inr e ↦ rw e (
      [],
      refl,
      λ d. (
        λ m. absurd m,
        λ (p, m, k). elim m [
          | inl same ↦ absurd (
              ground (
                arith,
                e,
                (is_promotable_iff q).1 (subst (IsPromotable settings) same k.promotable),
              ))
          | inr no_more ↦ absurd no_more
        ],
      ),
    )
    | inl e ↦ rw e (
      deed_of (show q.id) "agent:implement",
      set_label-deeds (show q.id) "agent:implement" r,
      λ d.
          let (to, from) = In-deed_of d (show q.id) "agent:implement" in
          (
            λ m. (
              q,
              inl refl,
              record { promotable = (is_promotable_iff q).0 e; deed = (to m).0; taken = (to m).1 },
            ),
            λ (p, m, k). elim m [
              | inl same ↦ let l = subst (λ x. LabelledFor x d) same k in from (l.deed, l.taken)
              | inr no_more ↦ absurd no_more
            ],
          ),
    )
  ]

  Promotes-then :
      (q : QueuedIssue) (qs : List QueuedIssue) (r s t : Run)
      → Promotes (q ∷ []) r s
      → Promotes qs s t
      → Promotes (q ∷ qs) r t
  Promotes-then q qs r s t (old, e, first) (new, f, later) = (
    new ++ old,
    f ∙ ap (with_deeds new) e ∙ with_deeds_twice new old r,
    λ d. (
      λ m. elim ((In-append d new old).0 m) [
        | inl k ↦ let (p, n, rest) = (later d).0 k in (p, inr n, rest)
        | inr k ↦
            let (p, n, rest) = (first d).0 k in
            elim n [ inl same ↦ (p, inl same, rest) | inr no_more ↦ absurd no_more ]
      ],
      λ (p, n, rest). (In-append d new old).1 (elim n [
        | inl same ↦ inr ((first d).1 (p, inl same, rest))
        | inr k ↦ inl ((later d).1 (p, k, rest))
      ]),
    ),
  )

  promote_each-Promotes :
      (qs : List QueuedIssue) (r : Run) → Promotes qs r (promote_each w settings qs r)
  unfolding promote_each
  promote_each-Promotes [] r = ([], refl, λ d. (λ m. absurd m, λ (q, m, _). absurd m))
  promote_each-Promotes (q ∷ qs) r =
      let next =
        if is_promotable settings q then set_label w (show q.id) "agent:implement" r else r in
      Promotes-then q qs r next (promote_each w settings qs next) (promoted_first q r)
        (promote_each-Promotes qs next)

  -- Of the queued Tasks that the tracker answered, exactly those are labelled for implementation that
  -- are ready, in no other state, without open blockers, with clear gates and with every variable
  -- they ask for, where the tracker takes the label; nothing else is changed.
  pub promote_unblocked_queued_issues_iff :
      (queued : List QueuedIssue) (r : Run)
      → (new : List Deed) × (promote_unblocked_queued_issues w settings (some queued) r
          ≡ with_deeds new r)
        × ((d : Deed) → In d new ↔ IsPromoted queued d)
  unfolding promote_unblocked_queued_issues
  promote_unblocked_queued_issues_iff queued r = promote_each-Promotes queued r
