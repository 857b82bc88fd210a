-- ===== src/Sandcastle/IssuePipeline/Laws.antt =====
-- Commits leave a Task's sandbox only after every gate.
use flash_trips.Prelude.{
  ℕ, String, Bool, true, false, Option, none, some, List, [], ◌∷◌, ◌++◌, ◌&&◌, nat_eq, str_eq, trim,
  ◌≡◌, refl, sym, ap, ◌∙◌, ◌↔◌, if◌then◌else◌, ok, err, ok_injective,
}
use flash_trips.Sandcastle.RunState.{is_sha}
use flash_trips.Sandcastle.IssuePipeline.{
  Work, Verdict, approved, blocked, Reason, reviewed_and_approved, PipelineError, Sandbox, Answer,
  is_clean, implementation_commits, after_status, after_review, after_head, is_nil, after_progress,
  after_implement, run_in_sandbox, after_close, run_issue_pipeline,
}

-- Every gate was passed, and the commits are the implementer's and the reviewer's.
pub record IsApproved (s : Sandbox) (commits : List String) (reason : Reason) : Type 0 where
  pub work : Work
  pub ahead : ℕ
  pub head : String
  pub more : List String
  pub starts : s.starts ≡ true
  pub clean_start : is_clean s.initial_status ≡ true
  pub aligns : s.aligns ≡ true
  pub implemented : s.implement ≡ some work
  pub progress : s.ahead ≡ some ahead
  pub has_commits : (is_nil work.commits && nat_eq ahead 0) ≡ false
  pub completes : work.completes ≡ true
  pub at_head : s.head ≡ some head
  pub head_is_sha : is_sha (trim head) ≡ true
  pub reviewed : s.review ≡ some (more, some approved)
  pub clean_end : is_clean s.final_status ≡ true
  pub closes : s.closes ≡ true
  pub all_commits : commits ≡ implementation_commits work.commits (trim head) ++ more
  pub reason_is : reason ≡ reviewed_and_approved

-- A test that let the call go on.
if-ok :
    {B : Type 0} (test : Bool) (x y : Answer) {a : List String × Reason}
    → (if test then x else y) ≡ ok a
    → (test ≡ true → x ≡ ok a → B)
    → (test ≡ false → y ≡ ok a → B)
    → B
if-ok true x y h yes_case no_case = yes_case refl h
if-ok false x y h yes_case no_case = no_case refl h

empty_answer :
    {B : Type 0} (r reason : Reason) (c : String) (cs : List String)
    → ◌≡◌ {A = Answer} (ok ([], r)) (ok (c ∷ cs, reason))
    → B
empty_answer r reason c cs h = cc

module _ (c : String) (cs : List String) (reason : Reason) where
  after_status-ok :
      (all : List String) (o : Option String)
      → after_status all o ≡ ok (c ∷ cs, reason)
      → (is_clean o ≡ true) × (c ∷ cs ≡ all) × (reason ≡ reviewed_and_approved)
  unfolding after_status
  after_status-ok all none h = cc
  after_status-ok all (some text) h =
      if-ok (str_eq (trim text) "") _ _ h
        (λ clean same.
          let eq = ok_injective {E = PipelineError} same in
          (clean, sym (ap (λ x. x.0) eq), sym (ap (λ x. x.1) eq)))
        (λ dirty other. cc)

  after_review-ok :
      (commits : List String) (status : Option String) (o : Option (List String × Option Verdict))
      → after_review commits status o ≡ ok (c ∷ cs, reason)
      → (more : List String) × (o ≡ some (more, some approved))
        × (is_clean status ≡ true)
        × (c ∷ cs ≡ commits ++ more)
        × (reason ≡ reviewed_and_approved)
  unfolding after_review
  after_review-ok commits status none h = cc
  after_review-ok commits status (some (more, none)) h = cc
  after_review-ok commits status (some (more, some blocked)) h = cc
  after_review-ok commits status (some (more, some approved)) h =
      let (clean, same, why) = after_status-ok (commits ++ more) status h in
      (more, refl, clean, same, why)

  module _ (s : Sandbox) where
    AtHead : List String → Option String → Type 0
    AtHead commits o =
        (head : String) × (more : List String) × (o ≡ some head)
        × (is_sha (trim head) ≡ true)
        × (s.review ≡ some (more, some approved))
        × (is_clean s.final_status ≡ true)
        × (c ∷ cs ≡ implementation_commits commits (trim head) ++ more)
        × (reason ≡ reviewed_and_approved)

    after_head-ok :
        (commits : List String) (o : Option String)
        → after_head s commits o ≡ ok (c ∷ cs, reason)
        → AtHead commits o
    unfolding after_head AtHead
    after_head-ok commits none h = cc
    after_head-ok commits (some head) h =
        if-ok (is_sha (trim head)) _ _ h
          (λ valid rest.
            let (more, reviewed, clean, same, why) =
              after_review-ok (implementation_commits commits (trim head)) s.final_status s.review
                rest in
            (head, more, refl, valid, reviewed, clean, same, why))
          (λ invalid other. cc)

    after_progress-ok :
        (work : Work) (o : Option ℕ)
        → after_progress s work o ≡ ok (c ∷ cs, reason)
        → (ahead : ℕ) × (o ≡ some ahead)
          × ((is_nil work.commits && nat_eq ahead 0) ≡ false)
          × (work.completes ≡ true)
          × AtHead work.commits s.head
    unfolding after_progress
    after_progress-ok work none h = cc
    after_progress-ok work (some ahead) h =
        if-ok (is_nil work.commits && nat_eq ahead 0) _ _ h (λ nothing other. cc)
          (λ something rest.
            if-ok work.completes _ _ rest
              (λ done last. (ahead, refl, something, done, after_head-ok work.commits s.head last))
              (λ undone other. cc))

    after_implement-ok :
        (o : Option Work)
        → after_implement s o ≡ ok (c ∷ cs, reason)
        → (work : Work) × (o ≡ some work) × (after_progress s work s.ahead ≡ ok (c ∷ cs, reason))
    unfolding after_implement
    after_implement-ok none h = cc
    after_implement-ok (some work) h = (work, refl, h)

    after_close-ok :
        (closes : Bool) (o : Answer)
        → after_close closes o ≡ ok (c ∷ cs, reason)
        → (closes ≡ true) × (o ≡ ok (c ∷ cs, reason))
    after_close-ok closes (err e) h = cc
    after_close-ok true (ok answer) h = (refl, h)
    after_close-ok false (ok answer) h = cc

    IsApproved-of_ok : run_issue_pipeline s ≡ ok (c ∷ cs, reason) → IsApproved s (c ∷ cs) reason
    unfolding run_issue_pipeline run_in_sandbox AtHead
    IsApproved-of_ok h =
        if-ok s.starts _ _ h
          (λ starts inside.
            let (closes, body) = after_close-ok s.closes (run_in_sandbox s) inside in
            if-ok (is_clean s.initial_status) _ _ body
              (λ clean after.
                if-ok s.aligns _ _ after
                  (λ aligned rest.
                    let (work, implemented, worked) = after_implement-ok s.implement rest in
                    let (ahead, progress, something, done, at) =
                      after_progress-ok work s.ahead worked in
                    let (head, more, found, valid, reviewed, clean_end, same, why) = at in
                    record {
                      work = work;
                      ahead = ahead;
                      head = head;
                      more = more;
                      starts = starts;
                      clean_start = clean;
                      aligns = aligned;
                      implemented = implemented;
                      progress = progress;
                      has_commits = something;
                      completes = done;
                      at_head = found;
                      head_is_sha = valid;
                      reviewed = reviewed;
                      clean_end = clean_end;
                      closes = closes;
                      all_commits = same;
                      reason_is = why;
                    })
                  (λ other bad. cc))
              (λ dirty bad. cc))
          (λ other bad. cc)

clean_text :
    (o : Option String)
    → is_clean o ≡ true
    → (text : String) × (o ≡ some text) × (str_eq (trim text) "" ≡ true)
clean_text none h = cc
clean_text (some text) h = (text, refl, h)

-- A Task's pipeline returns commits exactly if its worktree was clean and up to date at the start,
-- the implementer completed with progress, the branch has a head, the review approved, the worktree
-- was clean at the end and the sandbox closed; they are the implementer's commits, or the head where
-- it made none, and then the reviewer's.
pub run_issue_pipeline_iff :
    (s : Sandbox) (c : String) (cs : List String) (reason : Reason)
    → (run_issue_pipeline s ≡ ok (c ∷ cs, reason)) ↔ IsApproved s (c ∷ cs) reason
unfolding run_issue_pipeline run_in_sandbox after_implement after_progress after_head after_review
    after_status
run_issue_pipeline_iff s c cs reason = (
  IsApproved-of_ok c cs reason s,
  λ a.
      let (text, found, blank) = clean_text s.final_status a.clean_end in
      rw
        (
          a.starts, a.clean_start, a.aligns, a.implemented, a.progress, a.has_commits, a.completes,
          a.at_head, a.head_is_sha, a.reviewed, found, blank, a.closes,
        )
        (ap ok (
          ap (λ x. (x, reviewed_and_approved)) (sym a.all_commits)
          ∙ ap (λ (x : Reason). (c ∷ cs, x)) (sym a.reason_is))),
)
