-- ===== src/Federation/Group/Membership.antt =====
-- The index against the leaves: after any operations it says what the latest update of a leaf says.
use nodeagentx.Prelude.{
  String, ◌≡◌, refl, Bool, false, Option, none, some, List, [], ◌∷◌, str_eq, if◌then◌else◌, arith,
  eq_iff, Option-cases, inl, inr,
}
use nodeagentx.Prelude.Maps.{lookup, lookup-insert, lookup-remove}
use nodeagentx.Federation.Leaf.{LeafState}
use nodeagentx.Federation.Group.{
  GroupRule, GroupEngine, new_group_engine, evaluate_leaf, contains, leaf_groups, update_leaf,
  remove_leaf, leave_old,
}
use nodeagentx.Federation.Group.Index.{
  is_member, is_member-enter_all, is_member-leave_all, is_member-leave_old, contains-leaf_groups,
}

-- After an update exactly the groups whose rules match the leaf have it, and no other agent moves.
pub update_leaf-is_member :
    (leaf : LeafState) (ge : GroupEngine) (a g : String)
    → is_member a g (update_leaf leaf ge).group_index ≡ (
        if str_eq leaf.agent_id a
        then contains g (evaluate_leaf ge leaf)
        else is_member a g ge.group_index)
unfolding update_leaf
update_leaf-is_member leaf ge a g =
    let kept = evaluate_leaf ge leaf in
    let old = leaf_groups leaf.agent_id ge.group_index in
    let index = leave_old leaf.agent_id kept old ge.group_index in
    ground (
      arith,
      is_member-enter_all leaf.agent_id a g kept index,
      is_member-leave_old leaf.agent_id a g kept old ge.group_index,
      contains-leaf_groups a g ge.group_index,
      eq_iff leaf.agent_id a,
    )

pub data GroupOp : Type 0 where
  updates : LeafState → GroupOp
  removes : String → GroupOp

unfoldable pub group_step : GroupOp → GroupEngine → GroupEngine
group_step (updates leaf) ge = update_leaf leaf ge
group_step (removes agent) ge = remove_leaf agent ge

-- Operations, newest first.
unfoldable pub group_run : List GroupOp → GroupEngine → GroupEngine
group_run [] ge = ge
group_run (op ∷ older) ge = group_step op (group_run older ge)

-- What was last said of an agent: its leaf, or that it is gone.
abbrev pub latest : String → List GroupOp → Option LeafState
latest a [] = none
latest a (updates leaf ∷ older) = if str_eq leaf.agent_id a then some leaf else latest a older
latest a (removes agent ∷ older) = if str_eq agent a then none else latest a older

-- The groups that the rules give to a leaf, of an agent that may have none.
abbrev pub is_entitled : GroupEngine → String → Option LeafState → Bool
is_entitled ge g none = false
is_entitled ge g (some leaf) = contains g (evaluate_leaf ge leaf)

abbrev stored_groups : GroupEngine → Option LeafState → Option (List String)
stored_groups ge none = none
stored_groups ge (some leaf) = some (evaluate_leaf ge leaf)

abbrev groups_of : Option LeafState → Option (List String)
groups_of none = none
groups_of (some leaf) = some leaf.groups

record Follows (ge : GroupEngine) (ops : List GroupOp) (now : GroupEngine) : Type 0 where
  rules_stay : now.rules ≡ ge.rules
  stored : (a : String) → groups_of (lookup a now.leaf_states) ≡ stored_groups ge (latest a ops)
  indexed : (a g : String) → is_member a g now.group_index ≡ is_entitled ge g (latest a ops)

evaluate_leaf-rules :
    (ge now : GroupEngine) (leaf : LeafState)
    → now.rules ≡ ge.rules
    → evaluate_leaf now leaf ≡ evaluate_leaf ge leaf
unfolding evaluate_leaf
evaluate_leaf-rules ge now leaf e = rw e

update_leaf-Follows :
    (ge now : GroupEngine) (ops : List GroupOp) (leaf : LeafState)
    → Follows ge ops now
    → Follows ge (updates leaf ∷ ops) (update_leaf leaf now)
unfolding update_leaf
update_leaf-Follows ge now ops leaf f = record {
  rules_stay = f.rules_stay;
  stored = λ a.
      let kept = evaluate_leaf now leaf in
      ground (
        arith,
        lookup-insert leaf.agent_id a (record leaf { groups = kept }) now.leaf_states,
        evaluate_leaf-rules ge now leaf f.rules_stay,
        f.stored a,
      );
  indexed = λ a g. ground (
    arith,
    update_leaf-is_member leaf now a g,
    evaluate_leaf-rules ge now leaf f.rules_stay,
    f.indexed a g,
  );
}

remove_leaf-Follows :
    (ge now : GroupEngine) (ops : List GroupOp) (agent : String)
    → Follows ge ops now
    → Follows ge (removes agent ∷ ops) (remove_leaf agent now)
unfolding remove_leaf
remove_leaf-Follows ge now ops agent f = elim (Option-cases (lookup agent now.leaf_states)) [
  | inl e ↦
      rw (e, remove_leaf)
        (record {
          rules_stay = f.rules_stay;
          stored = λ a. ground (arith, f.stored a, f.stored agent, e, eq_iff agent a);
          indexed =
              λ a g. ground (arith, f.indexed a g, f.stored a, f.stored agent, e, eq_iff agent a);
        })
  | inr (leaf, e) ↦
      rw (e, remove_leaf)
        (record {
          rules_stay = f.rules_stay;
          stored = λ a. ground (arith, f.stored a, lookup-remove agent a now.leaf_states);
          indexed = λ a g. ground (
            arith,
            f.indexed a g,
            f.stored agent,
            e,
            eq_iff agent a,
            is_member-leave_all agent a g leaf.groups now.group_index,
          );
        })
]

group_run-Follows :
    (rules : List GroupRule) (ops : List GroupOp)
    → Follows (new_group_engine rules) ops (group_run ops (new_group_engine rules))
unfolding group_run group_step new_group_engine lookup
group_run-Follows rules [] = record { rules_stay = refl; stored = λ a. refl; indexed = λ a g. refl }
group_run-Follows rules (updates leaf ∷ older) =
    update_leaf-Follows (new_group_engine rules) (group_run older (new_group_engine rules)) older
      leaf (group_run-Follows rules older)
group_run-Follows rules (removes agent ∷ older) =
    remove_leaf-Follows (new_group_engine rules) (group_run older (new_group_engine rules)) older
      agent (group_run-Follows rules older)

-- After any updates and removals on a new engine, a group has an agent exactly when the agent was
-- not removed since its latest update, and the labels of that update match the group's rule.
pub is_member-group_run :
    (rules : List GroupRule) (ops : List GroupOp) (a g : String)
    → is_member a g (group_run ops (new_group_engine rules)).group_index
      ≡ is_entitled (new_group_engine rules) g (latest a ops)
is_member-group_run rules ops a g = (group_run-Follows rules ops).indexed a g
