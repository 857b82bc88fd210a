-- ===== src/Sandcastle/Gates.antt =====
-- hasExternalPreRunGates of .sandcastle/main.mts, on the code points of a ticket's body.
use flash_trips.Prelude.{
  ℕ, String, Bool, true, false, Option, none, some, List, [], ◌∷◌, ◌&&◌, ◌||◌, nat_eq, codes, any,
  is_space, strip, if◌then◌else◌,
}

-- What `^` and `$` with the flag m take for the end of a line.
abbrev pub is_terminator : ℕ → Bool
is_terminator c = any (nat_eq c) (10 ∷ 13 ∷ 8232 ∷ 8233 ∷ [])

-- \s*$ with the flag m: the spaces reach a line's end.
unfoldable pub ends_line : List ℕ → Bool
ends_line [] = true
ends_line (c ∷ cs) = is_terminator c || (is_space c && ends_line cs)

abbrev starts_with_space : Option (List ℕ) → Bool
starts_with_space (some (c ∷ cs)) = is_space c
starts_with_space _ = false

-- ##\s+
unfoldable pub begins_section : List ℕ → Bool
unfolding strip
begins_section cs = starts_with_space (strip (codes "##") cs)

-- Whether the text before the next section has more than spaces; the flag says whether the text
-- starts a line. The spaces after a heading are dropped by `trim`, so that where `\s*$` stopped
-- within them does not matter.
unfoldable pub has_content : Bool → List ℕ → Bool
unfolding begins_section
has_content start [] = false
has_content start (c ∷ cs) =
    let rest = has_content (is_terminator c) cs in
    if start && begins_section (c ∷ cs) then false else if is_space c then rest else true

-- The text after the heading, where one stands.
abbrev pub after_heading : Bool → List ℕ → Option (List ℕ)
after_heading false cs = none
after_heading true cs = elim (strip (codes "## External human or evidence gates") cs) [
  | none ↦ none
  | some rest ↦ if ends_line rest then some rest else none
]

-- The first heading decides.
unfoldable pub has_gates_from : Bool → List ℕ → Bool
unfolding strip ends_line has_content
has_gates_from start [] = false
has_gates_from start (c ∷ cs) =
    let next = has_gates_from (is_terminator c) cs in
    elim (after_heading start (c ∷ cs)) [ some rest ↦ has_content false rest | none ↦ next ]

unfoldable pub has_external_pre_run_gates : String → Bool
unfolding has_gates_from
has_external_pre_run_gates body = has_gates_from true (codes body)
