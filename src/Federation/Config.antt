-- ===== src/Federation/Config.antt =====
-- internal/federation/config_distributor.go: the configuration of an agent, merged from four levels.
-- Values are immutable here, so deepCopy and deepCopyMap, which guard against sharing, are not seen.

use nodeagentx.Prelude.{
  ℕ, zero, suc, String, Bool, Option, none, some, List, [], ◌∷◌, str_eq, if◌then◌else◌, length,
}
use nodeagentx.Prelude.Maps.{Map, lookup}

-- A `map[string]any` and what it holds. A scalar or a list is replaced as a whole, and so is opaque.
mutual
  pub data Value : Type 0 where
    object : Fields → Value
    opaque : ℕ → Value

  pub data Fields : Type 0 where
    no_fields : Fields
    field : String → Value → Fields → Fields

unfoldable pub get_field : String → Fields → Option Value
get_field k no_fields = none
get_field k (field j v rest) = if str_eq j k then some v else get_field k rest

unfoldable pub put_field : String → Value → Fields → Fields
put_field k v no_fields = field k v no_fields
put_field k v (field j old rest) =
    if str_eq j k then field k v rest else field j old (put_field k v rest)

-- What a key gets from its value so far, if there is one, and the value that is merged in.
unfoldable mutual
  pub merge_value : Option Value → Value → Value
  merge_value (some (object dst)) (object src) = object (deep_merge dst src)
  merge_value (some (opaque n)) (object src) = object src
  merge_value none (object src) = object src
  merge_value old (opaque n) = opaque n

  pub deep_merge : Fields → Fields → Fields
  deep_merge dst no_fields = dst
  deep_merge dst (field k v src) =
      deep_merge (put_field k (merge_value (get_field k dst) v) dst) src

pub record ConfigLevels : Type 0 where
  pub global : Fields
  pub regions : Map Fields
  pub groups : Map Fields
  pub agents : Map Fields

abbrev pub merge_level : Fields → Option Fields → Fields
merge_level result none = result
merge_level result (some level) = deep_merge result level

unfoldable pub merge_groups : Map Fields → List String → Fields → Fields
merge_groups levels [] result = result
merge_groups levels (g ∷ groups) result =
    merge_groups levels groups (merge_level result (lookup g levels))

-- The inner loop for one `i`: the smallest name moves to the front. `after` is `>` on strings.
unfoldable pub exchange : (String → String → Bool) → String → List String → String × List String
exchange after x [] = (x, [])
exchange after x (y ∷ ys) =
    let (least, rest) = exchange after (if after x y then y else x) ys in
    (least, (if after x y then x else y) ∷ rest)

unfoldable pub exchange_sort : (String → String → Bool) → ℕ → List String → List String
exchange_sort after zero names = names
exchange_sort after (suc n) [] = []
exchange_sort after (suc n) (x ∷ xs) =
    let (least, rest) = exchange after x xs in least ∷ exchange_sort after n rest

unfoldable pub resolve_config :
    (String → String → Bool) → ConfigLevels → String → String → List String → Fields
resolve_config after levels agent region groups =
    let regional = merge_level levels.global (lookup region levels.regions) in
    let grouped =
      merge_groups levels.groups (exchange_sort after (length groups) groups) regional in
    merge_level grouped (lookup agent levels.agents)
