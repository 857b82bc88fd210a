-- ===== src/Sandcastle/Checkpoints/Persistence.antt =====
-- What persistRunState writes and leaves: with no error of the disk, the file holds the claims.
use flash_trips.Prelude.{
  String, true, Option, none, some, List, [], ◌∷◌, ◌≡◌, refl, inl, inr, is_some, Bool-cases,
  Option-cases, if◌then◌else◌, ok, arith,
}
use flash_trips.Sandcastle.RunState.{ActiveClaim, StoredState}
use flash_trips.Sandcastle.Checkpoints.{
  Run, write_file, is_empty, persist_run_state, Disk, writes, kept_old, unsynced, replaced, saved,
}

-- The file that holds the claims, where there are any.
abbrev pub expected_file : Run → Option StoredState
expected_file r =
    if is_empty r.active then none else write_file r.target_branch r.target_head r.active

-- The target of the run is recorded, and the state file holds exactly the claims in memory.
pub record IsSaved (r : Run) : Type 0 where
  pub has_target : is_some (write_file r.target_branch r.target_head []) ≡ true
  pub in_file : r.file ≡ expected_file r

write_file-has_target :
    (b h : Option String) (cs ds : List ActiveClaim)
    → is_some (write_file b h cs) ≡ true
    → is_some (write_file b h ds) ≡ true
unfolding write_file
write_file-has_target none h cs ds e = cc
write_file-has_target (some b) none cs ds e = cc
write_file-has_target (some b) (some h) cs ds e = ground arith

replaced-ok :
    (contents : Option StoredState) (d : List Disk) (r : Run)
    → d ≡ []
    → replaced contents d r ≡ (record r { file = contents }, ok tt)
replaced-ok contents [] r h = refl
replaced-ok contents (x ∷ d) r h = cc

-- Without an error of the disk, the file holds the claims, and persistRunState does not throw.
persist_lem :
    (r : Run)
    → is_some (write_file r.target_branch r.target_head []) ≡ true
    → r.disk ≡ []
    → persist_run_state r ≡ (record r { file = expected_file r }, ok tt)
unfolding persist_run_state
persist_lem r h calm = elim (Bool-cases (is_empty r.active)) [
  | inl e ↦ rw e (replaced-ok none r.disk r calm)
  | inr e ↦ elim (Option-cases (write_file r.target_branch r.target_head r.active)) [
    | inl missing ↦
        absurd (
          ground
            (arith, missing, write_file-has_target r.target_branch r.target_head [] r.active h))
    | inr (contents, written) ↦ rw (e, written) (replaced-ok (some contents) r.disk r calm)
  ]
]

pub persist-IsSaved :
    (r : Run)
    → is_some (write_file r.target_branch r.target_head []) ≡ true
    → r.disk ≡ []
    → IsSaved (persist_run_state r).0
persist-IsSaved r h calm = rw (persist_lem r h calm) (record { has_target = h; in_file = refl })

pub persist-ok :
    (r : Run)
    → is_some (write_file r.target_branch r.target_head []) ≡ true
    → r.disk ≡ []
    → (persist_run_state r).1 ≡ ok tt
persist-ok r h calm = rw (persist_lem r h calm) refl

-- What persistRunState leaves as it was.
record Leaves (r r' : Run) : Type 0 where
  deeds : r'.deeds ≡ r.deeds
  active : r'.active ≡ r.active
  branch : r'.target_branch ≡ r.target_branch
  head : r'.target_head ≡ r.target_head
  calm : r.disk ≡ [] → r'.disk ≡ []

replaced-Leaves :
    (contents : Option StoredState) (d : List Disk) (r : Run)
    → r.disk ≡ d
    → Leaves r (replaced contents d r).0
replaced-Leaves contents [] r h = record {
  deeds = refl;
  active = refl;
  branch = refl;
  head = refl;
  calm = λ k. k;
}
replaced-Leaves contents (writes ∷ d) r h = record {
  deeds = refl;
  active = refl;
  branch = refl;
  head = refl;
  calm = λ k. cc;
}
replaced-Leaves contents (kept_old ∷ d) r h = record {
  deeds = refl;
  active = refl;
  branch = refl;
  head = refl;
  calm = λ k. cc;
}
replaced-Leaves contents (unsynced ∷ d) r h = record {
  deeds = refl;
  active = refl;
  branch = refl;
  head = refl;
  calm = λ k. cc;
}

saved-Leaves : (o : Option StoredState) (r : Run) → Leaves r (saved r o).0
saved-Leaves none r = record {
  deeds = refl;
  active = refl;
  branch = refl;
  head = refl;
  calm = λ k. k;
}
saved-Leaves (some contents) r = replaced-Leaves (some contents) r.disk r refl

persist-Leaves : (r : Run) → Leaves r (persist_run_state r).0
unfolding persist_run_state
persist-Leaves r = elim (Bool-cases (is_empty r.active)) [
  | inl e ↦ rw e (replaced-Leaves none r.disk r refl)
  | inr e ↦ rw e (saved-Leaves (write_file r.target_branch r.target_head r.active) r)
]

pub persist-deeds : (r : Run) → (persist_run_state r).0.deeds ≡ r.deeds
persist-deeds r = (persist-Leaves r).deeds

pub persist-active : (r : Run) → (persist_run_state r).0.active ≡ r.active
persist-active r = (persist-Leaves r).active

pub persist-target :
    (r : Run)
    → ((persist_run_state r).0.target_branch ≡ r.target_branch)
      × ((persist_run_state r).0.target_head ≡ r.target_head)
persist-target r = ((persist-Leaves r).branch, (persist-Leaves r).head)

pub persist-calm : (r : Run) → r.disk ≡ [] → (persist_run_state r).0.disk ≡ []
persist-calm r h = (persist-Leaves r).calm h
