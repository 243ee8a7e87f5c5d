-- ===== src/Federation/Group.antt =====
-- internal/federation/group.go: which leaf belongs to which group. The engine's mutex makes every
-- operation one step.
pub mod Index
pub mod Membership
use nodeagentx.Prelude.{
  String, Bool, true, false, not, ◌&&◌, Option, none, some, List, [], ◌∷◌, any, str_eq, map,
  if◌then◌else◌,
}
use nodeagentx.Prelude.Maps.{Map, lookup, insert, remove, copy}
use nodeagentx.Federation.Leaf.{LeafState, all_labels}

pub record GroupRule : Type 0 where
  pub name : String
  pub match_labels : Map String

-- Group names to agent ids. As in Go every value is `true`.
abbrev pub GroupIndex : Type 0
GroupIndex = Map (Map Bool)

pub record GroupEngine : Type 0 where
  pub rules : List GroupRule
  pub leaf_states : Map LeafState
  pub group_index : GroupIndex

unfoldable pub new_group_engine : List GroupRule → GroupEngine
new_group_engine rules = record { rules = rules; leaf_states = []; group_index = [] }

-- labels[k] of a map[string]string, with the empty string for a missing key.
abbrev pub label_of : Option String → String
label_of none = ""
label_of (some v) = v

unfoldable pub matches_all : Map String → Map String → Bool
matches_all labels [] = true
matches_all labels ((k, v) ∷ wanted) =
    str_eq (label_of (lookup k labels)) v && matches_all labels wanted

unfoldable pub matching : Map String → List GroupRule → List String
matching labels [] = []
matching labels (rule ∷ rules) =
    let rest = matching labels rules in
    if matches_all labels rule.match_labels then rule.name ∷ rest else rest

unfoldable pub evaluate_leaf : GroupEngine → LeafState → List String
evaluate_leaf ge leaf = matching (all_labels leaf) ge.rules

-- slices.Contains(groups, g)
abbrev pub contains : String → List String → Bool
contains g groups = any (λ h. str_eq h g) groups

-- members[agentID]: false for a missing key.
abbrev pub flag_of : Option Bool → Bool
flag_of none = false
flag_of (some b) = b

abbrev pub has_member : String → Map Bool → Bool
has_member agent members = flag_of (lookup agent members)

unfoldable pub leaf_groups : String → GroupIndex → List String
leaf_groups agent [] = []
leaf_groups agent ((g, members) ∷ index) =
    let rest = leaf_groups agent index in if has_member agent members then g ∷ rest else rest

-- What a group is left with: an empty one goes.
unfoldable pub put_members : String → Map Bool → GroupIndex → GroupIndex
put_members g [] index = remove g index
put_members g (m ∷ members) index = insert g (m ∷ members) index

-- delete(ge.groupIndex[g], agentID) and the removal of an empty group. A missing group stays missing.
unfoldable pub leave : String → String → GroupIndex → GroupIndex
leave agent g index = elim (lookup g index) [
  | none ↦ index
  | some members ↦ put_members g (remove agent members) index
]

abbrev pub members_of : Option (Map Bool) → Map Bool
members_of none = []
members_of (some members) = members

unfoldable pub enter : String → String → GroupIndex → GroupIndex
enter agent g index = insert g (insert agent true (members_of (lookup g index))) index

-- The loop over the groups that are no longer matched.
unfoldable pub leave_old : String → List String → List String → GroupIndex → GroupIndex
leave_old agent kept [] index = index
leave_old agent kept (g ∷ old) index =
    leave_old agent kept old (if not (contains g kept) then leave agent g index else index)

unfoldable pub enter_all : String → List String → GroupIndex → GroupIndex
enter_all agent [] index = index
enter_all agent (g ∷ groups) index = enter_all agent groups (enter agent g index)

unfoldable pub update_leaf : LeafState → GroupEngine → GroupEngine
update_leaf leaf ge =
    let new_groups = evaluate_leaf ge leaf in
    let old_groups = leaf_groups leaf.agent_id ge.group_index in
    let index = leave_old leaf.agent_id new_groups old_groups ge.group_index in
    record ge {
      leaf_states = insert leaf.agent_id (record leaf { groups = new_groups }) ge.leaf_states;
      group_index = enter_all leaf.agent_id new_groups index;
    }

unfoldable pub leave_all : String → List String → GroupIndex → GroupIndex
leave_all agent [] index = index
leave_all agent (g ∷ groups) index = leave_all agent groups (leave agent g index)

unfoldable pub remove_leaf : String → GroupEngine → GroupEngine
remove_leaf agent ge = elim (lookup agent ge.leaf_states) [
  | none ↦ ge
  | some leaf ↦ record ge {
    group_index = leave_all agent leaf.groups ge.group_index;
    leaf_states = remove agent ge.leaf_states;
  }
]

-- `sorted` is slices.Sorted.
unfoldable pub get_group_members : (List String → List String) → String → GroupEngine → List String
get_group_members sorted g ge = sorted (map (λ e. e.0) (members_of (lookup g ge.group_index)))

unfoldable pub get_leaf : String → GroupEngine → Option LeafState
get_leaf agent ge = lookup agent ge.leaf_states

unfoldable pub get_all_leaves : GroupEngine → Map LeafState
get_all_leaves ge = copy [] ge.leaf_states
