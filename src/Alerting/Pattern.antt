-- ===== src/Alerting/Pattern.antt =====
-- conditionPattern and parseCondition of internal/alerting/engine.go. The pattern is
-- `^(\S+)\s*(>|<|>=|<=|==|!=)\s*(.+)$`, matched as Go's regexp does: leftmost first, a repetition takes
-- as much as it can, and the alternatives are tried in the order of the pattern.

use Prim.Native.Char.{code}
use nodeagentx.Prelude.{ℕ, String, Bool, false, ◌||◌, Option, none, some, ◌==◌, if◌then◌else◌}
use nodeagentx.Alerting.Rules.{
  AlertCondition, Operator, greater, less, greater_eq, less_eq, equal, not_equal,
}

-- \s
unfoldable pub is_space : ℕ → Bool
is_space c = c == 32 || c == 9 || c == 10 || c == 12 || c == 13

unfoldable pub skip_spaces : String → String
skip_spaces String.[] = String.[]
skip_spaces (String.◌∷◌ c s) =
    let rest = skip_spaces s in if is_space (code c) then rest else String.◌∷◌ c s

unfoldable pub has_newline : String → Bool
has_newline String.[] = false
has_newline (String.◌∷◌ c s) = code c == 10 || has_newline s

-- (.+)$
unfoldable pub match_rest : String → Option String
match_rest String.[] = none
match_rest (String.◌∷◌ c s) = if has_newline (String.◌∷◌ c s) then none else some (String.◌∷◌ c s)

-- \s*(.+)$
unfoldable pub match_threshold : String → Option String
match_threshold String.[] = none
match_threshold (String.◌∷◌ c s) =
    let longer = match_threshold s in
    if is_space (code c)
    then elim longer [ none ↦ match_rest (String.◌∷◌ c s) | some t ↦ some t ]
    else match_rest (String.◌∷◌ c s)

-- What follows a text at the start of a string.
unfoldable pub after : String → String → Option String
after String.[] s = some s
after (String.◌∷◌ c p) String.[] = none
after (String.◌∷◌ c p) (String.◌∷◌ d s) =
    let rest = after p s in if code c == code d then rest else none

-- One alternative, with what follows it.
unfoldable pub match_alternative : String → Operator → String → Option (Operator × String)
match_alternative text op s = elim (after text s) [
  | none ↦ none
  | some rest ↦ elim (match_threshold rest) [ none ↦ none | some t ↦ some (op, t) ]
]

abbrev or_next {ℓ} : {A : Type ℓ} → Option A → Option A → Option A
or_next none o = o
or_next (some a) o = some a

-- (>|<|>=|<=|==|!=)\s*(.+)$
unfoldable pub match_operator : String → Option (Operator × String)
match_operator s = or_next (match_alternative ">" greater s) (
    or_next (match_alternative "<" less s) (
      or_next (match_alternative ">=" greater_eq s) (
        or_next (match_alternative "<=" less_eq s)
          (or_next (match_alternative "==" equal s) (match_alternative "!=" not_equal s)))))

-- The whole pattern from one character of `\S+` on.
unfoldable pub match_condition : String → Option (String × Operator × String)
match_condition String.[] = none
match_condition (String.◌∷◌ c s) =
    let longer = match_condition s in
    if is_space (code c) then none else elim longer [
      | some (m, op, t) ↦ some (String.◌∷◌ c m, op, t)
      | none ↦ elim (match_operator (skip_spaces s)) [
        | none ↦ none
        | some (op, t) ↦ some (String.◌∷◌ c String.[], op, t)
      ]
    ]

-- `parse_float` is strconv.ParseFloat(_, 64), `none` for an error.
unfoldable pub parse_condition :
    {F : Type 0} → (String → Option F) → String → Option (AlertCondition F)
parse_condition parse_float s = elim (match_condition s) [
  | none ↦ none
  | some (m, op, t) ↦ elim (parse_float t) [
    | none ↦ none
    | some threshold ↦ some (record { metric = m; operator = op; threshold = threshold })
  ]
]
