-- ===== src/Sandcastle/TaskEnvironment.antt =====
-- The environment of a Task in .sandcastle/main.mts: parseAfkEnvironment and resolveTaskEnvironment.
pub mod Names
pub mod Laws
use flash_trips.Prelude.{
  ℕ, String, Bytes, Bool, true, false, Option, none, some, List, [], ◌∷◌, ◌&&◌, ◌||◌, ◌-◌, not, all,
  ltb, nat_eq, codes, is_upper, is_digit, includes, split_on, trim, trim_start, if◌then◌else◌,
  Result, ok, err,
}
use Prim.Native.Char.{code}
use Prim.Native.String
use flash_trips.Sandcastle.Gates.{is_terminator, ends_line, begins_section}
use flash_trips.Sandcastle.Environment.{
  after_prefix, is_blank, then_after, or_else, after_spaces, Refusal, is_credential, not_allowed,
  not_configured, SettingError, empty_section, not_a_bullet, refused, Settings, local_configuration,
}

-- parseAfkEnvironment: the heading, with the text after it.
abbrev after_heading : Bool → String → Option String
after_heading false s = none
after_heading true s = elim (after_prefix (codes "## AFK environment") s) [
  | none ↦ none
  | some rest ↦ if ends_line (codes rest) then some rest else none
]

-- The first heading; the flag says whether the text starts a line.
unfoldable pub find_heading : Bool → String → Option String
unfolding after_prefix ends_line
find_heading start String.[] = none
find_heading start (String.◌∷◌ c s) =
    or_else (after_heading start (String.◌∷◌ c s)) (find_heading (is_terminator (code c)) s)

-- The text before the next section. The spaces after the heading are dropped by `trim`.
unfoldable pub section : Bool → String → String
unfolding begins_section
section start String.[] = ""
section start (String.◌∷◌ c s) =
    let rest = section (is_terminator (code c)) s in
    if start && begins_section (codes (String.◌∷◌ c s)) then "" else String.◌∷◌ c rest

abbrev is_name_character : ℕ → Bool
is_name_character c = is_upper c || is_digit c || nat_eq c b'_'

-- [A-Z][A-Z0-9_]*
abbrev is_name_codes : Bytes → Bool
is_name_codes [] = false
is_name_codes (c ∷ cs) = is_upper c && all is_name_character cs

unfoldable pub is_variable_name : String → Bool
is_variable_name name = is_name_codes (codes name)

abbrev if_name : String → Option String
if_name name = if is_variable_name name then some name else none

-- /^-\s+([A-Z][A-Z0-9_]*)$/.
unfoldable pub entry : String → Option String
unfolding after_prefix is_variable_name trim_start
entry line = then_after (then_after (after_prefix (b'-' ∷ []) line) after_spaces) if_name

unfoldable pub entries : List String → Result SettingError (List String)
unfolding entry
entries [] = ok []
entries (line ∷ lines) =
    let rest = entries lines in
    elim (entry line) [
      | none ↦ err not_a_bullet
      | some name ↦ elim rest [ err e ↦ err e | ok names ↦ ok (name ∷ names) ]
    ]

-- The lines of the section without spaces around them, and without the empty ones.
unfoldable pub nonempty_lines : List String → List String
unfolding trim
nonempty_lines [] = []
nonempty_lines (line ∷ lines) =
    let rest = nonempty_lines lines in if is_blank (trim line) then rest else trim line ∷ rest

-- The order of `sort` on ASCII.
unfoldable pub codes_before : Bytes → Bytes → Bool
codes_before [] ds = true
codes_before (c ∷ cs) [] = false
codes_before (c ∷ cs) (d ∷ ds) = ltb c d || (nat_eq c d && codes_before cs ds)

abbrev pub text_before : String → String → Bool
text_before s t = codes_before (codes s) (codes t)

unfoldable pub insert_name : String → List String → List String
insert_name name [] = name ∷ []
insert_name name (other ∷ others) =
    let rest = insert_name name others in
    if text_before name other then name ∷ other ∷ others else other ∷ rest

unfoldable pub sort_names : List String → List String
unfolding insert_name
sort_names [] = []
sort_names (name ∷ names) = insert_name name (sort_names names)

-- `[...new Set(names)]`; the elements are sorted afterwards, so which of two equal ones is kept does
-- not matter.
unfoldable pub distinct : List String → List String
distinct [] = []
distinct (name ∷ names) =
    let rest = distinct names in if includes name rest then rest else name ∷ rest

abbrev sorted_set : Result SettingError (List String) → Result SettingError (List String)
sorted_set (err e) = err e
sorted_set (ok names) = ok (sort_names (distinct names))

abbrev names_of_section : String → Result SettingError (List String)
names_of_section text =
    if is_blank text
    then err empty_section
    else sorted_set (entries (nonempty_lines (split_on 10 text)))

-- parseAfkEnvironment.
unfoldable pub parse_afk_environment : String → Result SettingError (List String)
unfolding find_heading section entries nonempty_lines split_on trim sort_names distinct
parse_afk_environment body = elim (find_heading true body) [
  | none ↦ ok []
  | some rest ↦ names_of_section (trim (section false rest))
]

abbrev pub forbidden_task_environment : List String
forbidden_task_environment = "CURSOR_API_KEY" ∷ "GH_TOKEN" ∷ "GITHUB_TOKEN" ∷ []

module _ (settings : Settings) where
  abbrev list_text : Option String → String
  list_text none = ""
  list_text (some text) = text

  -- The names that the allow-list has.
  unfoldable pub allowed_names : List String
  unfolding local_configuration nonempty_lines split_on
  allowed_names =
      nonempty_lines
        (split_on b',' (list_text (local_configuration settings "SANDCASTLE_TASK_ENV_ALLOWLIST")))

  -- The body of the loop on a name: its value, or why it is refused.
  unfoldable pub resolve_name : List String → String → Result Refusal String
  unfolding local_configuration
  resolve_name allowed name =
      if includes name forbidden_task_environment
      then err (is_credential name)
      else if not (includes name allowed)
      then err (not_allowed name)
      else elim (local_configuration settings name) [
        | none ↦ err (not_configured name)
        | some value ↦ if is_blank value then err (not_configured name) else ok value
      ]

  -- `resolved` and `errors` after the loop.
  unfoldable pub resolve_names : List String → List String → List (String × String) × List Refusal
  unfolding resolve_name
  resolve_names allowed [] = ([], [])
  resolve_names allowed (name ∷ names) =
      let rest = resolve_names allowed names in
      elim (resolve_name allowed name) [
        | err e ↦ (rest.0, e ∷ rest.1)
        | ok value ↦ ((name, value) ∷ rest.0, rest.1)
      ]

  abbrev unless_refused :
      List (String × String) × List Refusal → Result SettingError (List (String × String))
  unless_refused (resolved, []) = ok resolved
  unless_refused (resolved, e ∷ es) = err (refused (e ∷ es))

  abbrev resolve_requested :
      Result SettingError (List String) → Result SettingError (List (String × String))
  resolve_requested (err e) = err e
  resolve_requested (ok []) = ok []
  resolve_requested (ok (name ∷ names)) =
      unless_refused (resolve_names allowed_names (name ∷ names))

  -- resolveTaskEnvironment.
  unfoldable pub resolve_task_environment : String → Result SettingError (List (String × String))
  unfolding resolve_names allowed_names parse_afk_environment
  resolve_task_environment body = resolve_requested (parse_afk_environment body)
