-- ===== src/Federation/Merge.antt =====
-- What a merged configuration holds at each key.
use nodeagentx.Prelude.{
  ℕ, String, ◌≡◌, refl, Bool, Option, none, some, List, [], ◌∷◌, str_eq, if◌then◌else◌, arith,
  eq_iff, length, ◌∙◌,
}
use nodeagentx.Prelude.Maps.{Map, lookup}
use nodeagentx.Federation.Config.{
  Value, object, opaque, Fields, no_fields, field, get_field, put_field, merge_value, deep_merge,
  ConfigLevels, merge_level, merge_groups, exchange_sort, resolve_config,
}

get_field-put_field :
    (k j : String) (v : Value) (m : Fields)
    → get_field j (put_field k v m) ≡ (if str_eq k j then some v else get_field j m)
unfolding get_field put_field
get_field-put_field k j v no_fields = refl
get_field-put_field k j v (field i w rest) =
    ground (arith, eq_iff k j, eq_iff i k, eq_iff i j, get_field-put_field k j v rest)

-- No key stands twice at the top of a level.
abbrev pub DistinctFields : Fields → Type 0
DistinctFields no_fields = Unit
DistinctFields (field k v rest) = (get_field k rest ≡ none) × DistinctFields rest

-- What a key holds after a value was merged over an older one: two objects are merged.
abbrev pub merged : Option Value → Value → Value
merged (some (object dst)) (object src) = object (deep_merge dst src)
merged old v = v

abbrev pub over : Option Value → Option Value → Option Value
over old none = old
over old (some v) = some (merged old v)

merge_value-eq-merged : (old : Option Value) (v : Value) → merge_value old v ≡ merged old v
unfolding merge_value
merge_value-eq-merged none (object src) = refl
merge_value-eq-merged none (opaque n) = refl
merge_value-eq-merged (some (object dst)) (object src) = refl
merge_value-eq-merged (some (object dst)) (opaque n) = refl
merge_value-eq-merged (some (opaque k)) (object src) = refl
merge_value-eq-merged (some (opaque k)) (opaque n) = refl

-- After merging a configuration without repeated keys, each key holds what it held before when the
-- configuration lacks it, and otherwise the merge of both values: of two objects recursively, of
-- anything else the new value.
pub get_field-deep_merge :
    (k : String) (dst src : Fields)
    → DistinctFields src
    → get_field k (deep_merge dst src) ≡ over (get_field k dst) (get_field k src)
unfolding deep_merge get_field
get_field-deep_merge k dst no_fields d = refl
get_field-deep_merge k dst (field j v src) (absent, d) =
    let value = merge_value (get_field j dst) v in
    ground (
      arith,
      eq_iff j k,
      absent,
      get_field-put_field j k value dst,
      merge_value-eq-merged (get_field j dst) v,
      get_field-deep_merge k (put_field j value dst) src d,
    )

merged-opaque : (old : Option Value) (n : ℕ) → merged old (opaque n) ≡ opaque n
merged-opaque none n = refl
merged-opaque (some (object m)) n = refl
merged-opaque (some (opaque k)) n = refl

-- A value that is no object and that the configuration of an agent, without repeated keys, gives to a
-- key is what the agent gets, whatever its region and groups say.
pub resolve_config-agent :
    (after : String → String → Bool) (levels : ConfigLevels) (agent region : String)
    (groups : List String) (own : Fields) (k : String) (n : ℕ)
    → lookup agent levels.agents ≡ some own
    → DistinctFields own
    → get_field k own ≡ some (opaque n)
    → get_field k (resolve_config after levels agent region groups) ≡ some (opaque n)
unfolding resolve_config
resolve_config-agent after levels agent region groups own k n e d h =
    let regional = merge_level levels.global (lookup region levels.regions) in
    let grouped =
      merge_groups levels.groups (exchange_sort after (length groups) groups) regional in
    rw e (get_field-deep_merge k grouped own d ∙ (rw (h, merged-opaque (get_field k grouped) n)))

-- The level says nothing of the key.
abbrev pub IsSilent : String → Option Fields → Type 0
IsSilent k none = Unit
IsSilent k (some level) = DistinctFields level × (get_field k level ≡ none)

merge_level-silent :
    (k : String) (result : Fields) (o : Option Fields)
    → IsSilent k o
    → get_field k (merge_level result o) ≡ get_field k result
merge_level-silent k result none s = refl
merge_level-silent k result (some level) (d, e) = get_field-deep_merge k result level d ∙ rw e

merge_groups-silent :
    (k : String) (levels : Map Fields) (groups : List String) (result : Fields)
    → ((g : String) → IsSilent k (lookup g levels))
    → get_field k (merge_groups levels groups result) ≡ get_field k result
unfolding merge_groups
merge_groups-silent k levels [] result s = refl
merge_groups-silent k levels (g ∷ groups) result s =
    merge_groups-silent k levels groups (merge_level result (lookup g levels)) s
    ∙ merge_level-silent k result (lookup g levels) (s g)

-- A key of which no group, and neither the region nor the agent, says anything has its global value.
pub resolve_config-global :
    (after : String → String → Bool) (levels : ConfigLevels) (agent region : String)
    (groups : List String) (k : String)
    → IsSilent k (lookup region levels.regions)
    → ((g : String) → IsSilent k (lookup g levels.groups))
    → IsSilent k (lookup agent levels.agents)
    → get_field k (resolve_config after levels agent region groups) ≡ get_field k levels.global
unfolding resolve_config
resolve_config-global after levels agent region groups k r gs a =
    let regional = merge_level levels.global (lookup region levels.regions) in
    let sorted = exchange_sort after (length groups) groups in
    merge_level-silent k (merge_groups levels.groups sorted regional) (lookup agent levels.agents) a
    ∙ merge_groups-silent k levels.groups sorted regional gs
    ∙ merge_level-silent k levels.global (lookup region levels.regions) r
