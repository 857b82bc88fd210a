-- ===== src/Sandcastle/Pipeline/Laws.antt =====
-- A ticket that was moved has one pipeline label, or none.
use flash_trips.Prelude.{
  String, Bool, true, Option, List, [], ◌∷◌, ◌&&◌, ◌||◌, not, includes, eq_iff, ◌≡◌, refl, arith,
}
use flash_trips.Sandcastle.Pipeline.{implementation_labels, is_wanted, edit_labels}

pub includes-edit_labels :
    (x : String) (stale add current : List String)
    → includes x (edit_labels stale add current)
      ≡ ((includes x current && not (includes x stale)) || includes x add)
unfolding edit_labels
includes-edit_labels x stale add [] = refl
includes-edit_labels x stale add (label ∷ labels) =
    ground (arith, eq_iff label x, includes-edit_labels x stale add labels)

-- The labels that a ticket should have: those outside the pipeline as before, and the wanted one.
abbrev pub expected : Option String → List String → String → Bool
expected label current x =
    is_wanted x label || (includes x current && not (includes x implementation_labels))

-- What the documentation of `gh issue edit` says of a call that succeeds; of one that fails it says
-- nothing.
abbrev pub IsEdit : (List String → List String → List String → List String × Bool) → Type 0
IsEdit edit =
    (stale add current after : List String)
    → edit stale add current ≡ (after, true)
    → (x : String)
    → includes x after ≡ ((includes x current && not (includes x stale)) || includes x add)
