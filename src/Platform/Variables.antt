-- ===== src/Platform/Variables.antt =====
-- config.go: reading variables of the environment, each with the value to take where it is missing,
-- empty or malformed. The environment, the host name, the parsers of strconv and time and
-- `strings.ToLower` are parameters.
use Prim.Native.Char.{Char, code}
use notification_system.Prelude.{
  String, ℤ, Bool, Option, none, some, List, [], ◌∷◌, ◌==◌, same_text, trim_space, if◌then◌else◌,
  atoi,
}
use notification_system.Domain.Enums.{Priority, priority_valid}

pub record Environment (Float : Type 0) : Type 0 where
  pub lookup_env : String → Option String
  pub hostname : Option String
  pub to_lower : String → String
  pub parse_float : String → Option Float
  pub parse_bool : String → Option Bool
  pub parse_duration : String → Option ℤ
  pub half : Float  -- 0.5
  pub one_fifth : Float  -- 0.2

-- A variable that is set and not empty.
unfoldable pub set_value : Option String → Option String
set_value none = none
set_value (some v) = if same_text v "" then none else some v

abbrev pub or_else : {A : Type 0} → A → Option A → A
or_else def none = def
or_else def (some a) = a

-- The value of a variable, if it has one that can be read.
unfoldable pub parsed : {A : Type 0} → (String → Option A) → Option String → Option A
parsed read none = none
parsed read (some v) = read v

-- `strings.Split(v, ",")`
abbrev pub with_head : Char → List String → List String
with_head c [] = String.◌∷◌ c String.[] ∷ []
with_head c (word ∷ words) = String.◌∷◌ c word ∷ words

unfoldable pub split_comma : String → List String
split_comma String.[] = String.[] ∷ []
split_comma (String.◌∷◌ c s) =
    let rest = split_comma s in if code c == b',' then String.[] ∷ rest else with_head c rest

-- A list that is taken only where it has an entry.
abbrev pub unless_empty : {A : Type 0} → List A → List A → List A
unless_empty def [] = def
unless_empty def (x ∷ xs) = x ∷ xs

abbrev pub read_list : {A : Type 0} → List A → Option (List A) → List A
read_list def none = def
read_list def (some xs) = unless_empty def xs

module _ {Float : Type 0} (env : Environment Float) where
  abbrev pub value : String → Option String
  value key = set_value (env.lookup_env key)

  -- `getString`
  unfoldable pub get_string : String → String → String
  get_string key def = or_else def (value key)

  -- `getInt`
  unfoldable pub get_int : String → ℤ → ℤ
  get_int key def = or_else def (parsed atoi (value key))

  -- `getFloat`
  unfoldable pub get_float : String → Float → Float
  get_float key def = or_else def (parsed env.parse_float (value key))

  -- `getBool`
  unfoldable pub get_bool : String → Bool → Bool
  get_bool key def = or_else def (parsed env.parse_bool (value key))

  -- `getDuration`
  unfoldable pub get_duration : String → ℤ → ℤ
  get_duration key def = or_else def (parsed env.parse_duration (value key))

  -- The loop of `getDurationList`: one part that is no duration spoils the list.
  unfoldable pub durations : List String → Option (List ℤ)
  durations [] = some []
  durations (p ∷ ps) = elim (env.parse_duration (trim_space p)) [
    | none ↦ none
    | some d ↦ elim (durations ps) [ none ↦ none | some ds ↦ some (d ∷ ds) ]
  ]

  abbrev pub durations_from : List ℤ → Option String → List ℤ
  durations_from def none = def
  durations_from def (some v) = read_list def (durations (split_comma v))

  -- `getDurationList`
  unfoldable pub get_duration_list : String → List ℤ → List ℤ
  get_duration_list key def = durations_from def (value key)

  -- The loop of `getPriorities`: parts that are no priority are passed over.
  unfoldable pub priorities_of : List String → List Priority
  priorities_of [] = []
  priorities_of (p ∷ ps) =
      let rest = priorities_of ps in
      let candidate = trim_space (env.to_lower p) in
      if priority_valid candidate then candidate ∷ rest else rest

  abbrev pub priorities_from : List Priority → Option String → List Priority
  priorities_from def none = def
  priorities_from def (some v) = unless_empty def (priorities_of (split_comma v))

  -- `getPriorities`
  unfoldable pub get_priorities : String → List Priority → List Priority
  get_priorities key def = priorities_from def (value key)

  -- `hostnameOrDefault`
  unfoldable pub hostname_or_default : String
  hostname_or_default = or_else "worker-1" (set_value env.hostname)
