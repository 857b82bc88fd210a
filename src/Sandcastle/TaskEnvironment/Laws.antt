-- ===== src/Sandcastle/TaskEnvironment/Laws.antt =====
-- resolveTaskEnvironment and positiveIntegerSetting: what an accepted configuration satisfies.
use flash_trips.Prelude.{
  String, true, false, none, some, List, [], ◌∷◌, ◌≡◌, refl, sym, ap, ◌∙◌, subst, ◌⊎◌, ◌≢◌, inl,
  inr, ◌↔◌, All, map, includes, str_eq, arith, Bool-cases, Option-cases, Result, ok, err,
  ok_injective, eq_iff,
}
use flash_trips.Sandcastle.Autopilot.Laws.{In}
use flash_trips.Sandcastle.Environment.{
  Settings, Refusal, is_credential, not_allowed, not_configured, SettingError, refused,
  local_configuration,
}
use flash_trips.Sandcastle.TaskEnvironment.{
  parse_afk_environment, forbidden_task_environment, allowed_names, resolve_name, resolve_names,
  unless_refused, resolve_requested, resolve_task_environment,
}

err_injective : {e f : Refusal} → ◌≡◌ {A = Result Refusal String} (err e) (err f) → e ≡ f
err_injective h = cc

refused_injective :
    {A : Type 0} {es fs : List Refusal}
    → ◌≡◌ {A = Result SettingError A} (err (refused es)) (err (refused fs))
    → es ≡ fs
refused_injective h = cc

module _ (settings : Settings) where
  -- The name may be given to a Task with this value.
  pub record Granted (allowed : List String) (entry : String × String) : Type 0 where
    pub not_forbidden : includes entry.0 forbidden_task_environment ≡ false
    pub in_list : includes entry.0 allowed ≡ true
    pub configured : local_configuration settings entry.0 ≡ some entry.1
    pub nonempty : str_eq entry.1 "" ≡ false

  -- What is true of a refused name.
  abbrev pub Justified : List String → Refusal → Type 0
  Justified allowed (is_credential name) = includes name forbidden_task_environment ≡ true
  Justified allowed (not_allowed name) = includes name allowed ≡ false
  Justified allowed (not_configured name) =
      (local_configuration settings name ≡ none) ⊎ (local_configuration settings name ≡ some "")

  abbrev pub name_of : Refusal → String
  name_of (is_credential name) = name
  name_of (not_allowed name) = name
  name_of (not_configured name) = name

  pub data Resolution (allowed : List String) (name : String) (o : Result Refusal String)
      : Type 0 where
    grants :
        (value : String) → o ≡ ok value → Granted allowed (name, value) → Resolution allowed name o
    refuses :
        (e : Refusal)
        → o ≡ err e
        → name_of e ≡ name
        → Justified allowed e
        → Resolution allowed name o

  resolve_name_cases :
      (allowed : List String) (name : String)
      → Resolution allowed name (resolve_name settings allowed name)
  unfolding resolve_name
  resolve_name_cases allowed name = elim (Bool-cases (includes name forbidden_task_environment)) [
    | inl bad ↦ refuses (is_credential name) (ground (arith, bad)) refl bad
    | inr fine ↦ elim (Bool-cases (includes name allowed)) [
      | inr out ↦ refuses (not_allowed name) (ground (arith, fine, out)) refl out
      | inl listed ↦ elim (Option-cases (local_configuration settings name)) [
        | inl missing ↦
            refuses (not_configured name) (ground (arith, fine, listed, missing)) refl (inl missing)
        | inr (value, found) ↦ elim (Bool-cases (str_eq value "")) [
          | inl blank ↦
              refuses (not_configured name) (ground (arith, fine, listed, found, blank)) refl
                (inr (found ∙ ap some ((eq_iff value "").0 blank)))
          | inr full ↦ grants value (ground (arith, fine, listed, found, full)) (record {
            not_forbidden = fine;
            in_list = listed;
            configured = found;
            nonempty = full;
          })
        ]
      ]
    ]
  ]

  abbrev first : String × String → String
  first (name, value) = name

  -- What the loop leaves: values that are granted and errors that are justified, one for each name.
  record Resolved (allowed names : List String) (o : List (String × String) × List Refusal)
      : Type 0 where
    complete : o.1 ≡ [] → map first o.0 ≡ names
    values : All (Granted allowed) o.0
    errors : All (Justified allowed) o.1
    covers : (n : String) → In n names → In n (map first o.0) ⊎ In n (map name_of o.1)

  resolve_names-Resolved :
      (allowed names : List String) → Resolved allowed names (resolve_names settings allowed names)
  unfolding resolve_names
  resolve_names-Resolved allowed [] = record {
    complete = λ h. refl;
    values = tt;
    errors = tt;
    covers = λ n m. absurd m;
  }
  resolve_names-Resolved allowed (name ∷ names) =
      step (resolve_name settings allowed name) (resolve_name_cases allowed name)
        (resolve_names settings allowed names) (resolve_names-Resolved allowed names)
    where
      step :
          (o : Result Refusal String)
          → Resolution allowed name o
          → (rest : List (String × String) × List Refusal) → Resolved allowed names rest
          → Resolved allowed (name ∷ names) (elim o [
            | err e ↦ (rest.0, e ∷ rest.1)
            | ok value ↦ ((name, value) ∷ rest.0, rest.1)
          ])
      step (err e) (grants value same granted) rest r = absurd (ground (arith, same))
      step (ok value) (refuses e same named justified) rest r = absurd (ground (arith, same))
      step (ok value) (grants v same granted) rest r = record {
        complete = λ h. ap (◌∷◌ name) (r.complete h);
        values = (
          subst (λ x. Granted allowed (name, x)) (sym (ok_injective {E = Refusal} same)) granted,
          r.values,
        );
        errors = r.errors;
        covers = λ n m. elim m [
          | inl s ↦ inl (inl s)
          | inr k ↦ elim (r.covers n k) [ inl a ↦ inl (inr a) | inr b ↦ inr b ]
        ];
      }
      step (err e) (refuses f same named justified) rest r =
          let eq : e ≡ f = err_injective same in
          record {
            complete = λ h. absurd (ground (arith, h));
            values = r.values;
            errors = (subst (Justified allowed) (sym eq) justified, r.errors);
            covers = λ n m. elim m [
              | inl s ↦ inr (inl (s ∙ sym named ∙ ap name_of (sym eq)))
              | inr k ↦ elim (r.covers n k) [ inl a ↦ inl a | inr b ↦ inr (inr b) ]
            ];
          }

  resolve_names-Granted :
      (allowed : List String) (env : List (String × String))
      → All (Granted allowed) env
      → resolve_names settings allowed (map first env) ≡ (env, [])
  unfolding resolve_names resolve_name
  resolve_names-Granted allowed [] h = refl
  resolve_names-Granted allowed ((name, value) ∷ env) (g, gs) = ground (
    arith,
    g.not_forbidden,
    g.in_list,
    g.configured,
    g.nonempty,
    resolve_names-Granted allowed env gs,
  )

  unless_refused_lem :
      (allowed names : List String) (env : List (String × String))
      → (o : List (String × String) × List Refusal) → Resolved allowed names o
      → unless_refused settings o ≡ ok env
      → (map first env ≡ names) × All (Granted allowed) env
  unless_refused_lem allowed names env (done, []) r h =
      let eq : done ≡ env = ok_injective h in
      subst (λ x. (map first x ≡ names) × All (Granted allowed) x) eq (r.complete refl, r.values)
  unless_refused_lem allowed names env (done, e ∷ es) r h = cc

  empty_map :
      (env : List (String × String))
      → [] ≡ map first env
      → ◌≡◌ {A = Result SettingError (List (String × String))} (ok []) (ok env)
  empty_map [] h = refl
  empty_map (x ∷ xs) h = cc

  -- A Task gets an environment exactly if its body asks for names that are all on the allow-list, are
  -- no orchestrator credentials and have a value; it gets those names, in the order asked for, with
  -- these values, and nothing else.
  pub resolve_task_environment_iff :
      (body : String) (env : List (String × String))
      → (resolve_task_environment settings body ≡ ok env) ↔ (
          (parse_afk_environment body ≡ ok (map first env))
          × All (Granted (allowed_names settings)) env)
  unfolding resolve_task_environment
  resolve_task_environment_iff body env =
      (λ h. to (parse_afk_environment body) h, λ (h, g). from (parse_afk_environment body) h g)
    where
      to :
          (o : Result SettingError (List String))
          → resolve_requested settings o ≡ ok env
          → (o ≡ ok (map first env)) × All (Granted (allowed_names settings)) env
      to (err e) h = cc
      to (ok []) h =
          subst
            (λ x.
              (◌≡◌ {A = Result SettingError (List String)} (ok []) (ok (map first x)))
              × All (Granted (allowed_names settings)) x)
            (ok_injective h) (refl, tt)
      to (ok (name ∷ names)) h =
          let (same, granted) =
            unless_refused_lem (allowed_names settings) (name ∷ names) env
              (resolve_names settings (allowed_names settings) (name ∷ names))
              (resolve_names-Resolved (allowed_names settings) (name ∷ names)) h in
          (ap ok (sym same), granted)

      back :
          (names : List String)
          → names ≡ map first env
          → All (Granted (allowed_names settings)) env
          → resolve_requested settings (ok names) ≡ ok env
      back [] h g = empty_map env h
      back (name ∷ names) h g =
          subst
            (λ ns.
              unless_refused settings (resolve_names settings (allowed_names settings) ns) ≡ ok env)
            (sym h) (rw (resolve_names-Granted (allowed_names settings) env g) refl)

      from :
          (o : Result SettingError (List String))
          → o ≡ ok (map first env)
          → All (Granted (allowed_names settings)) env
          → resolve_requested settings o ≡ ok env
      from (err e) h g = cc
      from (ok names) h g = back names (ok_injective h) g

  refusals_lem :
      (allowed names : List String) (es : List Refusal)
      → (o : List (String × String) × List Refusal) → Resolved allowed names o
      → unless_refused settings o ≡ err (refused es)
      → (es ≢ [])
        × All (Justified allowed) es
        × ((n : String)
            → In n names
            → (In n (map name_of es)) ⊎ ((v : String) × Granted allowed (n, v)))
  refusals_lem allowed names es (done, []) r h = cc
  refusals_lem allowed names es (done, e ∷ rest) r h =
      subst
        (λ x.
          (x ≢ [])
          × All (Justified allowed) x
          × ((n : String)
              → In n names
              → (In n (map name_of x)) ⊎ ((v : String) × Granted allowed (n, v))))
        (refused_injective h)
        (
          λ k. cc,
          r.errors,
          λ n m. elim (r.covers n m) [ inl k ↦ inr (value_of n done r.values k) | inr k ↦ inl k ],
        )
    where
      value_of :
          (n : String) (env : List (String × String))
          → All (Granted allowed) env
          → In n (map first env)
          → (v : String) × Granted allowed (n, v)
      value_of n [] h m = absurd m
      value_of n ((x, v) ∷ env) h (inl s) = (v, subst (λ y. Granted allowed (y, v)) (sym s) h.0)
      value_of n ((x, v) ∷ env) h (inr m) = value_of n env h.1 m

  -- A Task that is refused for its names is told every one of them that may not be given, each with a
  -- reason that holds; the others could have been given.
  pub resolve_task_environment-refused :
      (body : String) (names : List String) (es : List Refusal)
      → parse_afk_environment body ≡ ok names
      → resolve_task_environment settings body ≡ err (refused es)
      → (es ≢ [])
        × All (Justified (allowed_names settings)) es
        × ((n : String)
            → In n names
            → (In n (map name_of es)) ⊎ ((v : String) × Granted (allowed_names settings) (n, v)))
  unfolding resolve_task_environment
  resolve_task_environment-refused body names es parsed h =
      go names (subst (λ o. resolve_requested settings o ≡ err (refused es)) parsed h)
    where
      go :
          (ns : List String)
          → resolve_requested settings (ok ns) ≡ err (refused es)
          → (es ≢ [])
            × All (Justified (allowed_names settings)) es
            × ((n : String)
                → In n ns
                → (In n (map name_of es))
                  ⊎ ((v : String) × Granted (allowed_names settings) (n, v)))
      go [] k = cc
      go (n ∷ ns) k =
          refusals_lem (allowed_names settings) (n ∷ ns) es
            (resolve_names settings (allowed_names settings) (n ∷ ns))
            (resolve_names-Resolved (allowed_names settings) (n ∷ ns)) k
