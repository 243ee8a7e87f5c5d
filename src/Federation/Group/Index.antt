-- ===== src/Federation/Group/Index.antt =====
-- Who is in which group of the index, after each kind of change.
use nodeagentx.Prelude.{
  String, ◌≡◌, Bool, true, not, ◌&&◌, ◌||◌, List, [], ◌∷◌, str_eq, if◌then◌else◌, arith, eq_iff,
  Option-cases, inl, inr,
}
use nodeagentx.Prelude.Maps.{Map, lookup, insert, remove, lookup-insert, lookup-remove}
use nodeagentx.Federation.Group.{
  GroupIndex, contains, has_member, leaf_groups, put_members, leave, enter, members_of, leave_old,
  enter_all, leave_all,
}

abbrev pub is_member : String → String → GroupIndex → Bool
is_member agent g index = has_member agent (members_of (lookup g index))

pub is_member-enter :
    (agent g a h : String) (index : GroupIndex)
    → is_member a h (enter agent g index) ≡ ((str_eq agent a && str_eq g h) || is_member a h index)
unfolding enter
is_member-enter agent g a h index =
    let members = insert agent true (members_of (lookup g index)) in
    ground (
      arith,
      lookup-insert g h members index,
      eq_iff g h,
      lookup-insert agent a true (members_of (lookup g index)),
    )

is_member-put_members :
    (g a h : String) (members : Map Bool) (index : GroupIndex)
    → is_member a h (put_members g members index)
      ≡ (if str_eq g h then has_member a members else is_member a h index)
unfolding put_members lookup
is_member-put_members g a h [] index = ground (arith, lookup-remove g h index)
is_member-put_members g a h (m ∷ members) index =
    ground (arith, lookup-insert g h (m ∷ members) index)

pub is_member-leave :
    (agent g a h : String) (index : GroupIndex)
    → is_member a h (leave agent g index)
      ≡ (not (str_eq agent a && str_eq g h) && is_member a h index)
unfolding leave lookup
is_member-leave agent g a h index = elim (Option-cases (lookup g index)) [
  | inl e ↦ ground (arith, e, eq_iff g h)
  | inr (members, e) ↦
      rw (e, leave, is_member-put_members g a h (remove agent members) index)
        (ground (arith, e, eq_iff g h, lookup-remove agent a members))
]

pub is_member-enter_all :
    (agent a h : String) (groups : List String) (index : GroupIndex)
    → is_member a h (enter_all agent groups index)
      ≡ ((str_eq agent a && contains h groups) || is_member a h index)
unfolding enter_all
is_member-enter_all agent a h [] index = ground arith
is_member-enter_all agent a h (g ∷ groups) index = ground (
  arith,
  is_member-enter_all agent a h groups (enter agent g index),
  is_member-enter agent g a h index,
)

pub is_member-leave_all :
    (agent a h : String) (groups : List String) (index : GroupIndex)
    → is_member a h (leave_all agent groups index)
      ≡ (not (str_eq agent a && contains h groups) && is_member a h index)
unfolding leave_all
is_member-leave_all agent a h [] index = ground arith
is_member-leave_all agent a h (g ∷ groups) index = ground (
  arith,
  is_member-leave_all agent a h groups (leave agent g index),
  is_member-leave agent g a h index,
)

pub is_member-leave_old :
    (agent a h : String) (kept old : List String) (index : GroupIndex)
    → is_member a h (leave_old agent kept old index)
      ≡ (not (str_eq agent a && contains h old && not (contains h kept)) && is_member a h index)
unfolding leave_old
is_member-leave_old agent a h kept [] index = ground arith
is_member-leave_old agent a h kept (g ∷ old) index = ground (
  arith,
  is_member-leave_old agent a h kept old index,
  is_member-leave_old agent a h kept old (leave agent g index),
  is_member-leave agent g a h index,
  eq_iff g h,
)

-- A group that has the agent is found.
pub contains-leaf_groups :
    (agent g : String) (index : GroupIndex)
    → is_member agent g index ≡ true
    → contains g (leaf_groups agent index) ≡ true
unfolding leaf_groups lookup
contains-leaf_groups agent g [] h = cc h
contains-leaf_groups agent g ((k, members) ∷ index) h =
    ground (arith, contains-leaf_groups agent g index)
