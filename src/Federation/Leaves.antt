-- ===== src/Federation/Leaves.antt =====
-- The leaves of a hub over any sequence of requests.
use nodeagentx.Prelude.{
  ℕ, suc, ◌≤◌, String, ◌≡◌, refl, Bool, false, Option, none, some, List, [], ◌∷◌, length, leb,
  str_eq, if◌then◌else◌, arith, eq_iff, Bool-cases, Option-cases, inl, inr, ap, ◌∙◌,
}
use nodeagentx.Prelude.Maps.{
  Map, lookup, insert, lookup-insert, Distinct, Distinct-insert, AllValues, AllValues-insert,
  AllEntries, AllEntries-insert, AllEntries-lookup, copy-nil,
}
use nodeagentx.Federation.Leaf.{LeafState, online, all_labels}
use nodeagentx.Federation.Group.{
  GroupRule, GroupEngine, contains, matching, evaluate_leaf, update_leaf, new_group_engine,
}
use nodeagentx.Federation.Group.Index.{is_member}
use nodeagentx.Federation.Group.Membership.{update_leaf-is_member}
use nodeagentx.Federation.Config.{ConfigLevels}
use nodeagentx.Federation.Hub.{
  Env, HubServer, Registration, HubOp, registers, heartbeats, hub_step, hub_run, new_hub_server,
  register, heartbeat, relabel, share, new_leaf, get_config_version, count_online, health_counts,
  get_leaves,
}

-- Whether the labels that the hub has of an agent put it into a group.
abbrev pub is_labelled : List GroupRule → String → Option LeafState → Bool
is_labelled rules g none = false
is_labelled rules g (some leaf) = contains g (matching (all_labels leaf) rules)

record Inv (rules : List GroupRule) (limit : ℕ) (s : HubServer) : Type 0 where
  rules_stay : s.engine.rules ≡ rules
  limit_stays : s.max_leaves ≡ limit
  keyed : AllEntries (λ k leaf. leaf.agent_id ≡ k) s.leaves
  distinct : Distinct s.leaves
  all_online : AllValues (λ leaf. leaf.status ≡ online) s.leaves
  bounded : length s.leaves ≤ limit
  indexed :
      (a g : String) → is_member a g s.engine.group_index ≡ is_labelled rules g (lookup a s.leaves)

length-insert :
    {V : Type 0} (k : String) (v : V) (m : Map V)
    → length (insert k v m) ≡ (elim (lookup k m) [ none ↦ suc (length m) | some w ↦ length m ])
unfolding insert lookup
length-insert k v [] = refl
length-insert k v ((j, w) ∷ m) = ground (arith, length-insert k v m)

-- A leaf is shared whose group memberships the engine already has.
share-Inv :
    (rules : List GroupRule) (limit : ℕ) (leaf : LeafState) (engine : GroupEngine) (s : HubServer)
    → Inv rules limit s
    → engine.rules ≡ rules
    → leaf.status ≡ online
    → length (insert leaf.agent_id leaf s.leaves) ≤ limit
    → ((a g : String)
        → is_member a g engine.group_index ≡ (
            if str_eq leaf.agent_id a
            then contains g (matching (all_labels leaf) rules)
            else is_member a g s.engine.group_index))
    → Inv rules limit (share leaf engine s)
unfolding share
share-Inv rules limit leaf engine s v r o b i = record {
  rules_stay = r;
  limit_stays = v.limit_stays;
  keyed = AllEntries-insert (λ k l. l.agent_id ≡ k) leaf.agent_id leaf s.leaves refl v.keyed;
  distinct = Distinct-insert leaf.agent_id leaf s.leaves v.distinct;
  all_online = AllValues-insert (λ l. l.status ≡ online) leaf.agent_id leaf s.leaves o v.all_online;
  bounded = b;
  indexed =
      λ a g. ground (arith, i a g, v.indexed a g, lookup-insert leaf.agent_id a leaf s.leaves);
}

push_channels-Inv :
    (rules : List GroupRule) (limit : ℕ) (s : HubServer) (channels : Map (List String))
    → Inv rules limit s
    → Inv rules limit (record s { push_channels = channels })
push_channels-Inv rules limit s channels v = record {
  rules_stay = v.rules_stay;
  limit_stays = v.limit_stays;
  keyed = v.keyed;
  distinct = v.distinct;
  all_online = v.all_online;
  bounded = v.bounded;
  indexed = v.indexed;
}

update_leaf-rules : (leaf : LeafState) (ge : GroupEngine) → (update_leaf leaf ge).rules ≡ ge.rules
unfolding update_leaf
update_leaf-rules leaf ge = refl

-- What an update of the engine does, by the rules that the hub was made with.
update_leaf-is_labelled :
    (rules : List GroupRule) (limit : ℕ) (leaf : LeafState) (s : HubServer) (a g : String)
    → Inv rules limit s
    → is_member a g (update_leaf leaf s.engine).group_index ≡ (
        if str_eq leaf.agent_id a
        then contains g (matching (all_labels leaf) rules)
        else is_member a g s.engine.group_index)
unfolding evaluate_leaf
update_leaf-is_labelled rules limit leaf s a g v =
    update_leaf-is_member leaf s.engine a g
    ∙ ap
        (λ rs.
          if str_eq leaf.agent_id a
          then contains g (matching (all_labels leaf) rs)
          else is_member a g s.engine.group_index)
        v.rules_stay

register-Inv :
    (rules : List GroupRule) (limit : ℕ) (env : Env) (now : ℕ) (req : Registration) (s : HubServer)
    → Inv rules limit s
    → Inv rules limit (register env now req s).0
unfolding register new_leaf all_labels share
register-Inv rules limit env now req s v = elim (Bool-cases (leb s.max_leaves (length s.leaves))) [
  | inl e ↦ rw (e, register) v
  | inr e ↦
      let leaf = new_leaf now req in
      let groups = evaluate_leaf s.engine leaf in
      let config = get_config_version env s.levels req.agent_id s.region groups in
      rw (e, register)
        (push_channels-Inv rules limit _ _ (
          share-Inv rules limit (record leaf { groups = groups; config_version = config })
            (update_leaf leaf s.engine) s v (update_leaf-rules leaf s.engine ∙ v.rules_stay) refl
            (ground (
              arith,
              length-insert req.agent_id (record leaf { groups = groups; config_version = config })
                  s.leaves,
              v.limit_stays,
            ))
            (λ a g. update_leaf-is_labelled rules limit leaf s a g v)))
]

-- A leaf of the hub that a heartbeat has refreshed.
refresh-Inv :
    (rules : List GroupRule) (limit : ℕ) (old leaf : LeafState) (labels : Map String)
    (s : HubServer)
    → Inv rules limit s
    → lookup leaf.agent_id s.leaves ≡ some old
    → all_labels leaf ≡ all_labels old
    → leaf.status ≡ online
    → let (engine, leaf') = relabel labels leaf s.engine in Inv rules limit (share leaf' engine s)
unfolding relabel all_labels
refresh-Inv rules limit old leaf [] s v e l o =
    share-Inv rules limit leaf s.engine s v v.rules_stay o
      (ground (arith, length-insert leaf.agent_id leaf s.leaves, v.bounded, e))
      (λ a g. ground (arith, v.indexed a g, eq_iff leaf.agent_id a, e, l))
refresh-Inv rules limit old leaf (x ∷ labels) s v e l o =
    let leaf' = record leaf { labels = x ∷ labels } in
    let groups = evaluate_leaf s.engine leaf' in
    share-Inv rules limit (record leaf' { groups = groups }) (update_leaf leaf' s.engine) s v
      (update_leaf-rules leaf' s.engine ∙ v.rules_stay) o
      (ground (
        arith,
        length-insert leaf.agent_id (record leaf' { groups = groups }) s.leaves,
        v.bounded,
        e,
      ))
      (λ a g. update_leaf-is_labelled rules limit leaf' s a g v)

heartbeat-Inv :
    (rules : List GroupRule) (limit : ℕ) (env : Env) (now : ℕ) (agent : String)
    (labels : Map String) (s : HubServer)
    → Inv rules limit s
    → Inv rules limit (heartbeat env now agent labels s).0
unfolding heartbeat all_labels
heartbeat-Inv rules limit env now agent labels s v = elim (Option-cases (lookup agent s.leaves)) [
  | inl e ↦ rw (e, heartbeat) v
  | inr (leaf, e) ↦
      let key = AllEntries-lookup (λ k l. l.agent_id ≡ k) agent s.leaves v.keyed e in
      rw (e, heartbeat)
        (refresh-Inv rules limit leaf (record leaf { last_seen = now; status = online }) labels s v
          (ap (λ k. lookup k s.leaves) key ∙ e) refl refl)
]

hub_run-Inv :
    (env : Env) (region : String) (limit : ℕ) (rules : List GroupRule) (levels : ConfigLevels)
    (ops : List HubOp)
    → Inv rules limit (hub_run env ops (new_hub_server region limit rules levels))
unfolding hub_run hub_step new_hub_server new_group_engine lookup
hub_run-Inv env region limit rules levels [] = record {
  rules_stay = refl;
  limit_stays = refl;
  keyed = tt;
  distinct = tt;
  all_online = tt;
  bounded = omega arith;
  indexed = λ a g. refl;
}
hub_run-Inv env region limit rules levels (registers now req ∷ older) =
    register-Inv rules limit env now req
      (hub_run env older (new_hub_server region limit rules levels))
      (hub_run-Inv env region limit rules levels older)
hub_run-Inv env region limit rules levels (heartbeats now agent labels ∷ older) =
    heartbeat-Inv rules limit env now agent labels
      (hub_run env older (new_hub_server region limit rules levels))
      (hub_run-Inv env region limit rules levels older)

-- After any requests to a new hub, the group index agrees with the labels that the hub has of each
-- agent, and there are at most as many leaves as the limit.
pub hub_run-is_labelled :
    (env : Env) (region : String) (limit : ℕ) (rules : List GroupRule) (levels : ConfigLevels)
    (ops : List HubOp)
    → let s = hub_run env ops (new_hub_server region limit rules levels) in
      (length s.leaves ≤ limit)
      × ((a g : String)
          → is_member a g s.engine.group_index ≡ is_labelled rules g (lookup a s.leaves))
hub_run-is_labelled env region limit rules levels ops =
    let v = hub_run-Inv env region limit rules levels ops in (v.bounded, v.indexed)

count_online-length :
    (leaves : Map LeafState)
    → AllValues (λ leaf. leaf.status ≡ online) leaves
    → count_online leaves ≡ length leaves
unfolding count_online
count_online-length [] a = refl
count_online-length ((k, leaf) ∷ leaves) (o, a) = rw (o, count_online-length leaves a)

-- However long ago the last heartbeat of a leaf was, the hub reports no leaf as offline.
pub hub_run-never_offline :
    (env : Env) (region : String) (limit : ℕ) (rules : List GroupRule) (levels : ConfigLevels)
    (ops : List HubOp)
    → let s = hub_run env ops (new_hub_server region limit rules levels) in
      health_counts s ≡ (length s.leaves, length s.leaves, 0)
unfolding health_counts get_leaves
hub_run-never_offline env region limit rules levels ops =
    let v = hub_run-Inv env region limit rules levels ops in
    let s = hub_run env ops (new_hub_server region limit rules levels) in
    rw (copy-nil s.leaves v.distinct, count_online-length s.leaves v.all_online)
      (ap (λ n. (length s.leaves, length s.leaves, n)) (omega arith))
