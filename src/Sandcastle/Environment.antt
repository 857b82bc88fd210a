-- ===== src/Sandcastle/Environment.antt =====
-- The configuration of .sandcastle/main.mts: localConfiguration and positiveIntegerSetting. The names that are asked
-- for have no character that a regular expression reads in another way.
pub mod Numbers
use flash_trips.Prelude.{
  ℕ, String, Bytes, Bool, false, Option, none, some, List, [], ◌∷◌, ◌&&◌, ◌||◌, ◌+◌, ◌*◌, ◌-◌, all,
  any, leb, ltb, nat_eq, codes, is_digit, is_space, str_eq, split_on, trim, trim_start,
  if◌then◌else◌, Result, ok, err,
}
use Prim.Native.Char.{code}
use Prim.Native.String
use flash_trips.Sandcastle.Gates.{is_terminator}

-- What follows a prefix, where it is one.
unfoldable pub after_prefix : List ℕ → String → Option String
after_prefix [] s = some s
after_prefix (p ∷ ps) String.[] = none
after_prefix (p ∷ ps) (String.◌∷◌ c s) =
    let rest = after_prefix ps s in if nat_eq p (code c) then rest else none

abbrev pub is_blank : String → Bool
is_blank s = str_eq s ""

-- \s+ at the start.
abbrev pub after_spaces : String → Option String
after_spaces String.[] = none
after_spaces (String.◌∷◌ c s) = if is_space (code c) then some (trim_start s) else none

abbrev pub then_after : Option String → (String → Option String) → Option String
then_after none next = none
then_after (some s) next = next s

abbrev pub or_else : Option String → Option String → Option String
or_else none second = second
or_else (some s) second = some s

-- (.+)\s*$ after the spaces, with `trim`: `.` is no end of a line.
unfoldable pub assigned_value : String → Option String
unfolding trim
assigned_value rest =
    let value = trim rest in
    if is_blank value
    then if all is_terminator (codes rest) then none else some ""
    else if any is_terminator (codes value)
    then none
    else some value

-- NAME\s*=, and the value.
unfoldable pub after_name : String → String → Option String
unfolding after_prefix trim_start assigned_value
after_name name s =
    then_after (after_prefix (codes name) s)
      (λ rest. then_after (after_prefix (b'=' ∷ []) (trim_start rest)) assigned_value)

-- The assignment of a name on a line.
unfoldable pub assignment : String → String → Option String
unfolding after_prefix trim_start after_name
assignment name line =
    let start = trim_start line in
    or_else
      (then_after (then_after (after_prefix (codes "export") start) after_spaces) (after_name name))
      (after_name name start)

unfoldable pub find_assignment : String → List String → Option String
unfolding assignment
find_assignment name [] = none
find_assignment name (line ∷ lines) = or_else (assignment name line) (find_assignment name lines)

abbrev first_is : ℕ → String → Bool
first_is c String.[] = false
first_is c (String.◌∷◌ d s) = nat_eq (code d) c

unfoldable pub last_is : ℕ → String → Bool
last_is c String.[] = false
last_is c (String.◌∷◌ d String.[]) = nat_eq (code d) c
last_is c (String.◌∷◌ d (String.◌∷◌ e s)) = last_is c (String.◌∷◌ e s)

unfoldable pub drop_last : String → String
drop_last String.[] = String.[]
drop_last (String.◌∷◌ c String.[]) = String.[]
drop_last (String.◌∷◌ c (String.◌∷◌ d s)) = String.◌∷◌ c (drop_last (String.◌∷◌ d s))

-- `value.slice(1, -1)`.
unfoldable pub unquoted : String → String
unfolding drop_last
unquoted String.[] = String.[]
unquoted (String.◌∷◌ c s) = drop_last s

abbrev is_quoted_by : ℕ → String → Bool
is_quoted_by c s = first_is c s && last_is c s

-- The value of an assignment without its quotes.
unfoldable pub file_value : Option String → Option String
unfolding last_is unquoted
file_value none = none
file_value (some value) =
    if is_blank value || str_eq value "\"\"" || str_eq value "''"
    then none
    else if is_quoted_by b'"' value || is_quoted_by 39 value
    then some (unquoted value)
    else some value

abbrev trimmed : Option String → String
trimmed none = ""
trimmed (some value) = trim value

-- An error of the configuration of a Task.
pub data Refusal : Type 0 where
  is_credential : String → Refusal
  not_allowed : String → Refusal
  not_configured : String → Refusal

pub data SettingError : Type 0 where
  not_a_positive_integer : SettingError
  too_large : SettingError
  empty_section : SettingError
  not_a_bullet : SettingError
  refused : List Refusal → SettingError

-- `Number(text)` of decimal digits.
unfoldable pub number_of : ℕ → Bytes → ℕ
number_of n [] = n
number_of n (c ∷ cs) = number_of (10 * n + (c - 48)) cs

-- /^[1-9]\d*$/.
abbrev is_positive_decimal : Bytes → Bool
is_positive_decimal [] = false
is_positive_decimal (c ∷ cs) = leb b'1' c && leb c b'9' && all is_digit cs

abbrev pub max_safe_integer : ℕ
max_safe_integer = 9007199254740991

-- `process.env`, and the text of `.sandcastle/.env` where that file exists.
pub record Settings : Type 0 where
  pub process_env : String → Option String
  pub env_file : Option String

module _ (settings : Settings) where
  abbrev from_file : String → Option String → Option String
  from_file name none = none
  from_file name (some text) = file_value (find_assignment name (split_on 10 text))

  -- localConfiguration.
  unfoldable pub local_configuration : String → Option String
  unfolding trim file_value find_assignment split_on
  local_configuration name =
      let value = trimmed (settings.process_env name) in
      if is_blank value then from_file name settings.env_file else some value

  abbrev checked_number : ℕ → ℕ → Result SettingError ℕ
  checked_number value maximum =
      if ltb max_safe_integer value || ltb maximum value then err too_large else ok value

  -- positiveIntegerSetting.
  unfoldable pub positive_integer_setting : String → ℕ → ℕ → Result SettingError ℕ
  unfolding local_configuration number_of
  positive_integer_setting name fallback maximum =
      let raw = trimmed (local_configuration name) in
      if is_blank raw
      then ok fallback
      else if is_positive_decimal (codes raw)
      then checked_number (number_of 0 (codes raw)) maximum
      else err not_a_positive_integer
