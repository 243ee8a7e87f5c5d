-- ===== src/Plugins/Names.antt =====
-- The names of plugins and of their tasks: `sanitizePluginName` and `ParseFullTaskType` of
-- internal/pluginruntime/gateway.go, `FullTaskType` of internal/pluginruntime/manifest.go.
use Prim.Native.Char.{code}
use nodeagentx.Prelude.{
  ℕ, String, ◌≡◌, Bool, true, false, ◌&&◌, ◌||◌, Option, none, some, leb, ◌==◌, if◌then◌else◌,
  arith,
}
use nodeagentx.Prelude.Text.{join, cut, is_empty, Lacks, cut-join}

is_alphanumeric : ℕ → Bool
is_alphanumeric c =
    (leb b'a' c && leb c b'z') || (leb b'A' c && leb c b'Z') || (leb b'0' c && leb c b'9')

is_name_char : ℕ → Bool
unfolding is_alphanumeric
is_name_char c = is_alphanumeric c || c == b'_' || c == b'-'

all_name_chars : String → Bool
all_name_chars String.[] = true
all_name_chars (String.◌∷◌ c s) = is_name_char (code c) && all_name_chars s

-- validPluginName.MatchString: ^[a-zA-Z0-9][a-zA-Z0-9_-]*$
unfoldable pub is_valid_name : String → Bool
unfolding is_alphanumeric is_name_char all_name_chars
is_valid_name String.[] = false
is_valid_name (String.◌∷◌ c s) = is_alphanumeric (code c) && all_name_chars s

pub data ParseError : Type 0 where
  no_slash empty_part : ParseError

pub data Parsed : Type 0 where
  ok : String → String → Parsed
  err : ParseError → Parsed

split_parts : Option (String × String) → Parsed
split_parts none = err no_slash
split_parts (some (name, task)) =
    if is_empty name || is_empty task then err empty_part else ok name task

unfoldable pub parse_full_task_type : String → Parsed
unfolding split_parts
parse_full_task_type full = split_parts (cut b'/' full)

abbrev pub slash : String → String
slash s = join "/" s

unfoldable pub full_task_type : String → String → String
full_task_type name task = join name (slash task)

Lacks-name_chars : (s : String) → all_name_chars s ≡ true → Lacks b'/' s
unfolding all_name_chars is_name_char is_alphanumeric
Lacks-name_chars String.[] h = tt
Lacks-name_chars (String.◌∷◌ c s) h = (ground arith, Lacks-name_chars s (ground arith))

-- A valid name has no slash, so it cannot reach into the task part.
pub is_valid_name-Lacks : (s : String) → is_valid_name s ≡ true → Lacks b'/' s
unfolding is_valid_name
is_valid_name-Lacks String.[] h = tt
is_valid_name-Lacks (String.◌∷◌ c s) h = (ground arith, Lacks-name_chars s (ground arith))

-- A task that was qualified by a plugin name without a slash is parsed back to that name and task,
-- provided that neither is empty.
pub parse-full_task_type :
    (name task : String)
    → Lacks b'/' name
    → is_empty name ≡ false
    → is_empty task ≡ false
    → parse_full_task_type (full_task_type name task) ≡ ok name task
unfolding parse_full_task_type full_task_type join
parse-full_task_type name task h n t = rw (cut-join "/" name task h, split_parts, n, t)
