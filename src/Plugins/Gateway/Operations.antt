-- ===== src/Plugins/Gateway/Operations.antt =====
-- Each operation on a name keeps the process invariant and leaves the other names alone.
use nodeagentx.Prelude.{
  ℕ, ◌+◌, String, ◌≡◌, refl, true, false, not, ◌||◌, Option, none, some, str_eq, [], ◌∷◌,
  Option-cases, Bool-cases, inl, inr, arith, subst, sym, ap, ◌∙◌,
}
use nodeagentx.Prelude.Maps.{
  Map, lookup, Distinct, AllEntries, AllEntries-insert, AllEntries-remove, AllEntries-lookup,
  Distinct-insert, Distinct-remove, lookup-insert, AllEntries-others,
}
use nodeagentx.Plugins.Names.{is_valid_name}
use nodeagentx.Plugins.Gateway.{
  is_disabled, is_running, PluginStatus, running, stopped, error, disabled, Manifest, ManagedPlugin,
  Gateway, Launch, mkdir_fails, is_symlink, start_fails, times_out, launched, launch, load_plugin,
  stop_plugin, set_status, reload_plugin, enable_plugin, disable_plugin, unload_plugin,
  stop_entries, should_restart, Check, restart, health_check, health_check_entries,
}
use nodeagentx.Plugins.Gateway.Processes.{
  started, killed, holds, held, held_at, held-insert, held-remove, Quiet, IsEntry, Inv, Free,
  load_plugin-Inv, Stops, stop_plugin-Stops,
}

launch-others :
    (l : Launch) (m : Manifest) (g : Gateway) (j : String)
    → str_eq m.name j ≡ false
    → lookup j (launch l m g).0.plugins ≡ lookup j g.plugins
unfolding launch
launch-others mkdir_fails m g j h = refl
launch-others is_symlink m g j h = refl
launch-others start_fails m g j h = refl
launch-others (times_out pid) m g j h = refl
launch-others (launched pid) m g j h = lookup-insert m.name j _ g.plugins ∙ rw h

pub load_plugin-others :
    (l : Launch) (m : Manifest) (g : Gateway) (j : String)
    → str_eq m.name j ≡ false
    → lookup j (load_plugin l m g).0.plugins ≡ lookup j g.plugins
unfolding load_plugin
load_plugin-others l m g j h = elim (Bool-cases (is_valid_name m.name)) [
  | inl e ↦ rw e (launch-others l _ g j h)
  | inr e ↦ rw e
]

-- An operation on one name: it keeps the invariant and the other entries.
pub record Local (name : String) (g g' : Gateway) : Type 0 where
  pub inv : Inv g'
  pub others : (j : String) → str_eq name j ≡ false → lookup j g'.plugins ≡ lookup j g.plugins

Local-same : (name : String) (g : Gateway) → Inv g → Local name g g
Local-same name g v = record { inv = v; others = λ j h. refl }

set_status-Local :
    (s : PluginStatus) (name : String) (g : Gateway)
    → Inv g
    → ((p : ManagedPlugin) → lookup name g.plugins ≡ some p → Quiet s p.process)
    → Local name g (set_status s name g)
unfolding set_status
set_status-Local s name g v q = elim (Option-cases (lookup name g.plugins)) [
  | inl e ↦ rw (e, set_status) (Local-same name g v)
  | inr (p, e) ↦
      let p' : ManagedPlugin = record p { status = s } in
      rw (e, set_status)
        (record {
          inv = record {
            balanced =
                λ k. omega (arith, v.balanced k, held-insert k name p' g.plugins, ap (held_at k) e);
            distinct = Distinct-insert name p' g.plugins v.distinct;
            entries =
                AllEntries-insert IsEntry name p' g.plugins
                  (q p e, (AllEntries-lookup IsEntry name g.plugins v.entries e).1) v.entries;
          };
          others = λ j h. lookup-insert name j p' g.plugins ∙ rw h;
        })
]

holds_self : (pid : ℕ) → holds pid (some pid) ≡ 0 → ⊥
holds_self pid h = absurd (ground arith)

Free-none :
    (name : String) (g : Gateway) (p : ManagedPlugin)
    → Free name g
    → lookup name g.plugins ≡ some p
    → p.process ≡ none
Free-none name g p f e = elim (Option-cases p.process) [
  | inl h ↦ h
  | inr (pid, h) ↦
      absurd (holds_self pid (ap (holds pid) (sym h) ∙ ap (held_at pid) (sym e) ∙ f pid))
]

-- A load under `name` of the manifest that the entry there has.
reload-Local :
    (l : Launch) (name : String) (m : Manifest) (g g' : Gateway)
    → m.name ≡ name
    → Inv g'
    → Free name g'
    → ((j : String) → str_eq name j ≡ false → lookup j g'.plugins ≡ lookup j g.plugins)
    → Local name g (load_plugin l m g').0
reload-Local l name m g g' e v f o = record {
  inv = load_plugin-Inv l m g' v (subst (λ n. Free n g') (sym e) f);
  others = λ j h. load_plugin-others l m g' j (ap (λ n. str_eq n j) e ∙ h) ∙ o j h;
}

disabled-Quiet : (s : PluginStatus) (o : Option ℕ) → is_disabled s ≡ true → Quiet s o → o ≡ none
unfolding is_disabled
disabled-Quiet disabled o d q = q
disabled-Quiet running o d q = cc
disabled-Quiet stopped o d q = cc
disabled-Quiet error o d q = cc

module _ (name : String) (g : Gateway) (v : Inv g) where
  named : {p : ManagedPlugin} → lookup name g.plugins ≡ some p → p.manifest.name ≡ name
  named e = (AllEntries-lookup IsEntry name g.plugins v.entries e).1

  pub reload_plugin-Local : (l : Launch) → Local name g (reload_plugin l name g).0
  unfolding reload_plugin
  reload_plugin-Local l = elim (Option-cases (lookup name g.plugins)) [
    | inl e ↦ rw (e, reload_plugin) (Local-same name g v)
    | inr (p, e) ↦
        let s : Stops name p g (stop_plugin name p g) = stop_plugin-Stops name p g v e in
        rw (e, reload_plugin)
          (reload-Local l name p.manifest g (stop_plugin name p g) (named e) s.inv s.free s.others)
  ]

  pub enable_plugin-Local : (l : Launch) → Local name g (enable_plugin l name g).0
  unfolding enable_plugin is_disabled
  enable_plugin-Local l = elim (Option-cases (lookup name g.plugins)) [
    | inl e ↦ rw (e, enable_plugin) (Local-same name g v)
    | inr (p, e) ↦ elim (Bool-cases (is_disabled p.status)) [
      | inl d ↦
          let free : Free name g = λ k.
            ap (held_at k) e
            ∙ ap (holds k) (
                disabled-Quiet p.status p.process d
                  (AllEntries-lookup IsEntry name g.plugins v.entries e).0) in
          rw (e, enable_plugin)
            (rw d (reload-Local l name p.manifest g g (named e) v free (λ j h. refl)))
      | inr d ↦ rw (e, enable_plugin) (rw d (Local-same name g v))
    ]
  ]

  pub disable_plugin-Local : Local name g (disable_plugin name g).0
  unfolding disable_plugin
  disable_plugin-Local = elim (Option-cases (lookup name g.plugins)) [
    | inl e ↦ rw (e, disable_plugin) (Local-same name g v)
    | inr (p, e) ↦
        let s : Stops name p g (stop_plugin name p g) = stop_plugin-Stops name p g v e in
        let d : Local name (stop_plugin name p g)
            (set_status disabled name (stop_plugin name p g)) =
          set_status-Local disabled name _ s.inv
            (λ q h. Free-none name (stop_plugin name p g) q s.free h) in
        rw (e, disable_plugin) (record { inv = d.inv; others = λ j h. d.others j h ∙ s.others j h })
  ]

  pub unload_plugin-Inv : Inv (unload_plugin name g)
  unfolding unload_plugin
  unload_plugin-Inv = elim (Option-cases (lookup name g.plugins)) [
    | inl e ↦ rw (e, unload_plugin) v
    | inr (p, e) ↦
        let g' : Gateway = stop_plugin name p g in
        let s : Stops name p g g' = stop_plugin-Stops name p g v e in
        rw (e, unload_plugin)
          (record {
            balanced = λ k.
                omega
                  (arith, s.inv.balanced k, s.free k, held-remove k name g'.plugins s.inv.distinct);
            distinct = Distinct-remove name g'.plugins s.inv.distinct;
            entries = AllEntries-remove IsEntry name g'.plugins s.inv.entries;
          })
  ]

-- The name of one entry being dealt with, the entries of a copy of the map that come later are still
-- those of the map.
later_entries :
    (name : String) (g g' : Gateway) (ps : Map ManagedPlugin)
    → lookup name ps ≡ none
    → ((j : String) → str_eq name j ≡ false → lookup j g'.plugins ≡ lookup j g.plugins)
    → AllEntries (λ j p. lookup j g.plugins ≡ some p) ps
    → AllEntries (λ j p. lookup j g'.plugins ≡ some p) ps
later_entries name g g' ps h o a =
    AllEntries-others (λ j p. lookup j g.plugins ≡ some p) _ name ps h (λ j p e q. o j e ∙ q) a

restart-Local :
    (c : Check) (name : String) (p : ManagedPlugin) (g : Gateway)
    → Inv g
    → lookup name g.plugins ≡ some p
    → Local name g (restart c name p g).0
unfolding restart
restart-Local c name p g v e =
    let g' : Gateway = stop_plugin name p g in
    let s : Stops name p g g' = stop_plugin-Stops name p g v e in
    let r = load_plugin c.launch p.manifest g' in
    let l : Local name g r.0 =
      reload-Local c.launch name p.manifest g g' (named name g v e) s.inv s.free s.others in
    elim (Bool-cases c.stopped_in_backoff) [
      | inl b ↦ rw b (record { inv = s.inv; others = s.others })
      | inr b ↦ elim (Option-cases r.1) [
        | inl x ↦ rw (b, x) l
        | inr (_, x) ↦
            let d : Local name r.0 (set_status error name r.0) =
              set_status-Local error name r.0 l.inv (λ q h. tt) in
            rw (b, x) (record { inv = d.inv; others = λ j h. d.others j h ∙ l.others j h })
      ]
    ]

pub health_check-Local :
    (c : Check) (name : String) (p : ManagedPlugin) (g : Gateway)
    → Inv g
    → lookup name g.plugins ≡ some p
    → Local name g (health_check c name p g).0
unfolding health_check
health_check-Local c name p g v e = elim (Bool-cases (not (is_running p.status) || not p.client)) [
  | inl h ↦ rw h (Local-same name g v)
  | inr h ↦ elim (Bool-cases c.ping_ok) [
    | inl o ↦ rw (h, o) (Local-same name g v)
    | inr o ↦ elim (Bool-cases (should_restart g p)) [
      | inl r ↦ rw (h, o, r) (restart-Local c name p g v e)
      | inr r ↦ rw (h, o, r) (set_status-Local error name g v (λ q h. tt))
    ]
  ]
]

pub health_check_entries-Inv :
    (answers : String → Check) (ps : Map ManagedPlugin) (g : Gateway)
    → Inv g
    → Distinct ps
    → AllEntries (λ j p. lookup j g.plugins ≡ some p) ps
    → Inv (health_check_entries answers ps g)
unfolding health_check_entries
health_check_entries-Inv answers [] g v d a = v
health_check_entries-Inv answers ((name, p) ∷ ps) g v (h, d) (e, a) =
    let r = health_check (answers name) name p g in
    let l : Local name g r.0 = health_check-Local (answers name) name p g v e in
    elim (Bool-cases r.1) [
      | inl x ↦ rw x l.inv
      | inr x ↦ rw x (
          health_check_entries-Inv answers ps r.0 l.inv d
            (later_entries name g r.0 ps h l.others a))
    ]

-- What the loop of Stop does over a copy of the map.
pub stop_entries-Stops :
    (ps : Map ManagedPlugin) (g : Gateway)
    → Inv g
    → Distinct ps
    → AllEntries (λ j p. lookup j g.plugins ≡ some p) ps
    → Inv (stop_entries ps g)
      × ((k : ℕ)
          → (killed k (stop_entries ps g).effects ≡ killed k g.effects + held k ps)
            × (started k (stop_entries ps g).effects ≡ started k g.effects))
unfolding stop_entries
stop_entries-Stops [] g v d a = (v, λ k. (omega arith, refl))
stop_entries-Stops ((name, p) ∷ ps) g v (h, d) (e, a) =
    let g' : Gateway = stop_plugin name p g in
    let s : Stops name p g g' = stop_plugin-Stops name p g v e in
    let (v', counts) = stop_entries-Stops ps g' s.inv d (later_entries name g g' ps h s.others a) in
    (v', λ k. (omega (arith, (counts k).0, s.kills k), (counts k).1 ∙ s.starts_none k))
