-- ===== src/Sandcastle/Pipeline.antt =====
-- The pipeline labels of a ticket: setPipelineLabel of .sandcastle/main.mts.
pub mod Laws
use flash_trips.Prelude.{
  String, Bool, true, false, Option, none, some, List, [], ◌∷◌, ◌++◌, ◌&&◌, ◌||◌, not, includes,
  str_eq, if◌then◌else◌,
}

abbrev pub implementation_labels : List String
implementation_labels =
    "agent:implement" ∷ "agent:queued" ∷ "agent:in-progress" ∷ "agent:blocked" ∷ []

abbrev pub is_wanted : String → Option String → Bool
is_wanted candidate none = false
is_wanted candidate (some label) = str_eq candidate label

-- The candidates that are there and are not the wanted one.
unfoldable pub stale_labels : Option String → List String → List String → List String
stale_labels label current [] = []
stale_labels label current (candidate ∷ candidates) =
    let rest = stale_labels label current candidates in
    if not (is_wanted candidate label) && includes candidate current then candidate ∷ rest else rest

unfoldable pub added_labels : Option String → List String → List String
added_labels none current = []
added_labels (some label) current = if includes label current then [] else label ∷ []

-- What `gh issue edit` leaves when it succeeds, for the labels to remove and to add.
unfoldable pub edit_labels : List String → List String → List String → List String
edit_labels stale add [] = add
edit_labels stale add (label ∷ labels) =
    let rest = edit_labels stale add labels in if includes label stale then rest else label ∷ rest

abbrev pub is_nil : List String → Bool
is_nil [] = true
is_nil (_ ∷ _) = false

-- setPipelineLabel: the ticket's labels afterwards, and the result. The arguments are whether reading
-- the labels succeeds, and what `gh issue edit` does with the labels to remove and to add, and with
-- those of the ticket: the labels that it leaves, and whether it succeeded.
unfoldable pub set_pipeline_label :
    Bool
    → (List String → List String → List String → List String × Bool)
    → Option String
    → List String
    → List String × Bool
set_pipeline_label false edit label current = (current, false)
set_pipeline_label true edit label current =
    let stale = stale_labels label current implementation_labels in
    let add = added_labels label current in
    if is_nil stale && is_nil add then (current, true) else edit stale add current
