-- ===== src/Sandbox/Policy.antt =====
-- internal/sandbox/policy.go. A text is a string of characters; its length in bytes is that of UTF-8.
-- `lower` is strings.ToLower.
use nodeagentx.Prelude.{
  ℕ, zero, suc, ◌+◌, String, Bool, true, false, not, ◌&&◌, ◌||◌, Option, none, some, List, [], ◌∷◌,
  any, first_error, ltb, str_eq, if◌then◌else◌,
}
use nodeagentx.Prelude.Text.{is_empty, trim_space, has_prefix, byte_length}
use nodeagentx.Prelude.Int.{ℤ, pos, negsuc}

pub record Policy : Type 0 where
  pub allowed_commands : List String
  pub blocked_commands : List String
  pub blocked_keywords : List String
  pub allowed_interpreters : List String
  pub max_script_bytes : ℤ
  pub allow_sudo : Bool

pub data CommandError : Type 0 where
  command_required metacharacters_in_name blocked not_allowed sudo_not_allowed : CommandError
  metacharacters_in_argument : ℕ → CommandError

pub data ScriptError : Type 0 where
  interpreter_required interpreter_not_allowed too_large : ScriptError
  blocked_keyword : String → ScriptError

-- strings.Contains
unfoldable pub contains_text : String → String → Bool
contains_text String.[] p = has_prefix String.[] p
contains_text (String.◌∷◌ c s) p = has_prefix (String.◌∷◌ c s) p || contains_text s p

abbrev pub shell_metachars : List String
shell_metachars =
    ";" ∷ "&&" ∷ "||" ∷ "|" ∷ "`" ∷ "$(" ∷ "${" ∷ ">" ∷ "<" ∷ "\n" ∷ "'" ∷ "\"" ∷ "\\" ∷ "*" ∷ "?"
    ∷ "#" ∷ "~" ∷ "!" ∷ "(" ∷ ")" ∷ "[" ∷ "]" ∷ "{" ∷ "}" ∷ []

unfoldable pub contains_shell_metacharacters : String → Bool
contains_shell_metacharacters s = any (λ mc. contains_text s mc) shell_metachars

-- _, ok := toSet(items)[name]
unfoldable pub in_set : String → List String → Bool
in_set name [] = false
in_set name (item ∷ items) =
    (not (is_empty (trim_space item)) && str_eq (trim_space item) name) || in_set name items

abbrev pub is_nil : List String → Bool
is_nil [] = true
is_nil _ = false

-- The loop over the arguments, the first of which has the index `i`.
unfoldable pub check_args : ℕ → List String → Option CommandError
check_args i [] = none
check_args i (arg ∷ args) =
    let rest = check_args (i + 1) args in
    if contains_shell_metacharacters arg then some (metacharacters_in_argument i) else rest

unfoldable pub check_sudo : Policy → String → Option CommandError
check_sudo p name = if str_eq name "sudo" && not p.allow_sudo then some sudo_not_allowed else none

unfoldable pub validate_command : Policy → String → List String → Option CommandError
validate_command p command args =
    let name = trim_space command in
    if is_empty name
    then some command_required
    else if contains_shell_metacharacters name
    then some metacharacters_in_name
    else if in_set name p.blocked_commands
    then some blocked
    else if not (is_nil p.allowed_commands) && not (in_set name p.allowed_commands)
    then some not_allowed
    else first_error (check_args 0 args) (check_sudo p name)

abbrev pub max_bytes : ℤ → ℕ
max_bytes (pos (suc n)) = suc n
max_bytes (pos zero) = 1_048_576
max_bytes (negsuc n) = 1_048_576

unfoldable pub check_keywords : (String → String) → String → List String → Option ScriptError
check_keywords lower script [] = none
check_keywords lower script (kw ∷ kws) =
    let rest = check_keywords lower script kws in
    if contains_text (lower script) (lower kw) then some (blocked_keyword kw) else rest

unfoldable pub validate_script : (String → String) → Policy → String → String → Option ScriptError
validate_script lower p interpreter script =
    if is_empty interpreter
    then some interpreter_required
    else if not (is_nil p.allowed_interpreters) && not (in_set interpreter p.allowed_interpreters)
    then some interpreter_not_allowed
    else if ltb (max_bytes p.max_script_bytes) (byte_length script)
    then some too_large
    else check_keywords lower script p.blocked_keywords
