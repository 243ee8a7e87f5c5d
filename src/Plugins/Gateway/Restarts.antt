-- ===== src/Plugins/Gateway/Restarts.antt =====
-- The restart counts of the gateway's plugins.
use nodeagentx.Prelude.{
  ℕ, ◌<◌, String, ◌≡◌, refl, true, not, ◌||◌, Option, none, some, List, [], ◌∷◌, Option-cases,
  Bool-cases, inl, inr, arith,
}
use nodeagentx.Prelude.Maps.{
  Map, lookup, AllValues, AllValues-insert, AllValues-remove, AllValues-lookup,
}
use nodeagentx.Plugins.Names.{is_valid_name}
use nodeagentx.Plugins.Gateway.{
  previous_count, is_disabled, is_running, PluginStatus, running, stopped, error, disabled,
  Manifest, ManagedPlugin, Gateway, Launch, mkdir_fails, is_symlink, start_fails, times_out,
  launched, launch, load_plugin, kill, stop_entry, stop_plugin, set_status, reload_plugin,
  enable_plugin, disable_plugin, unload_plugin, start, stop_entries, stop, should_restart, Check,
  restart, health_check, health_check_entries, health_check_all, Op, starts, reloads, enables,
  disables, unloads, checks, stops, step, run, new_gateway,
}

abbrev pub IsUncounted : ManagedPlugin → Type 0
IsUncounted p = p.restart_count ≡ 0

-- No plugin was counted as restarted, and the limit is `n`.
abbrev pub Uncounted : ℕ → Gateway → Type 0
Uncounted n g = AllValues IsUncounted g.plugins × (g.max_restarts ≡ n)

previous_count-zero :
    (name : String) (m : Map ManagedPlugin)
    → AllValues IsUncounted m
    → previous_count (lookup name m) ≡ 0
previous_count-zero name m u = elim (Option-cases (lookup name m)) [
  | inl e ↦ rw e
  | inr (p, e) ↦ rw e (AllValues-lookup IsUncounted name m u e)
]

launch-Uncounted :
    (n : ℕ) (l : Launch) (m : Manifest) (g : Gateway) → Uncounted n g → Uncounted n (launch l m g).0
unfolding launch
launch-Uncounted n mkdir_fails m g u = u
launch-Uncounted n is_symlink m g u = u
launch-Uncounted n start_fails m g u = u
launch-Uncounted n (times_out pid) m g u = u
launch-Uncounted n (launched pid) m g (u, h) =
    (AllValues-insert IsUncounted m.name _ g.plugins (previous_count-zero m.name g.plugins u) u, h)

load_plugin-Uncounted :
    (n : ℕ) (l : Launch) (m : Manifest) (g : Gateway)
    → Uncounted n g
    → Uncounted n (load_plugin l m g).0
unfolding load_plugin
load_plugin-Uncounted n l m g u = elim (Bool-cases (is_valid_name m.name)) [
  | inl e ↦ rw e (launch-Uncounted n l _ g u)
  | inr e ↦ rw e u
]

kill-Uncounted : (n : ℕ) (o : Option ℕ) (g : Gateway) → Uncounted n g → Uncounted n (kill o g)
kill-Uncounted n none g u = u
kill-Uncounted n (some pid) g u = u

stop_entry-Uncounted :
    (n : ℕ) (s : PluginStatus) (name : String) (p : ManagedPlugin) (g : Gateway)
    → IsUncounted p
    → Uncounted n g
    → Uncounted n (stop_entry s name p g)
unfolding stop_entry
stop_entry-Uncounted n stopped name p g h u = u
stop_entry-Uncounted n disabled name p g h u = u
stop_entry-Uncounted n running name p g h (u, m) =
    kill-Uncounted n p.process _ (AllValues-insert IsUncounted name _ g.plugins h u, m)
stop_entry-Uncounted n error name p g h (u, m) =
    kill-Uncounted n p.process _ (AllValues-insert IsUncounted name _ g.plugins h u, m)

stop_plugin-Uncounted :
    (n : ℕ) (name : String) (p : ManagedPlugin) (g : Gateway)
    → IsUncounted p
    → Uncounted n g
    → Uncounted n (stop_plugin name p g)
unfolding stop_plugin
stop_plugin-Uncounted n name p g h u = stop_entry-Uncounted n p.status name p g h u

set_status-Uncounted :
    (n : ℕ) (s : PluginStatus) (name : String) (g : Gateway)
    → Uncounted n g
    → Uncounted n (set_status s name g)
unfolding set_status
set_status-Uncounted n s name g (u, m) = elim (Option-cases (lookup name g.plugins)) [
  | inl e ↦ rw (e, set_status) (u, m)
  | inr (p, e) ↦
      rw (e, set_status)
        (
          AllValues-insert IsUncounted name _ g.plugins
              (AllValues-lookup IsUncounted name g.plugins u e) u,
          m,
        )
]

reload_plugin-Uncounted :
    (n : ℕ) (l : Launch) (name : String) (g : Gateway)
    → Uncounted n g
    → Uncounted n (reload_plugin l name g).0
unfolding reload_plugin
reload_plugin-Uncounted n l name g (u, m) = elim (Option-cases (lookup name g.plugins)) [
  | inl e ↦ rw (e, reload_plugin) (u, m)
  | inr (p, e) ↦
      rw (e, reload_plugin)
        (load_plugin-Uncounted n l p.manifest _ (
          stop_plugin-Uncounted n name p g (AllValues-lookup IsUncounted name g.plugins u e)
            (u, m)))
]

enable_plugin-Uncounted :
    (n : ℕ) (l : Launch) (name : String) (g : Gateway)
    → Uncounted n g
    → Uncounted n (enable_plugin l name g).0
unfolding enable_plugin
enable_plugin-Uncounted n l name g u = elim (Option-cases (lookup name g.plugins)) [
  | inl e ↦ rw (e, enable_plugin) u
  | inr (p, e) ↦ elim (Bool-cases (is_disabled p.status)) [
    | inl d ↦ rw (e, enable_plugin) (rw d (load_plugin-Uncounted n l p.manifest g u))
    | inr d ↦ rw (e, enable_plugin) (rw d u)
  ]
]

disable_plugin-Uncounted :
    (n : ℕ) (name : String) (g : Gateway) → Uncounted n g → Uncounted n (disable_plugin name g).0
unfolding disable_plugin
disable_plugin-Uncounted n name g u = elim (Option-cases (lookup name g.plugins)) [
  | inl e ↦ rw (e, disable_plugin) u
  | inr (p, e) ↦
      rw (e, disable_plugin)
        (set_status-Uncounted n disabled name _
          (stop_plugin-Uncounted n name p g (AllValues-lookup IsUncounted name g.plugins u.0 e) u))
]

unload_plugin-Uncounted :
    (n : ℕ) (name : String) (g : Gateway) → Uncounted n g → Uncounted n (unload_plugin name g)
unfolding unload_plugin
unload_plugin-Uncounted n name g u = elim (Option-cases (lookup name g.plugins)) [
  | inl e ↦ rw (e, unload_plugin) u
  | inr (p, e) ↦
      let u' : Uncounted n (stop_plugin name p g) =
        stop_plugin-Uncounted n name p g (AllValues-lookup IsUncounted name g.plugins u.0 e) u in
      rw (e, unload_plugin)
        (AllValues-remove IsUncounted name (stop_plugin name p g).plugins u'.0, u'.1)
]

start-Uncounted :
    (n : ℕ) (ms : List (Manifest × Launch)) (g : Gateway) → Uncounted n g → Uncounted n (start ms g)
unfolding start
start-Uncounted n [] g u = u
start-Uncounted n ((m, l) ∷ ms) g u = start-Uncounted n ms _ (load_plugin-Uncounted n l m g u)

stop_entries-Uncounted :
    (n : ℕ) (ps : Map ManagedPlugin) (g : Gateway)
    → AllValues IsUncounted ps
    → Uncounted n g
    → Uncounted n (stop_entries ps g)
unfolding stop_entries
stop_entries-Uncounted n [] g h u = u
stop_entries-Uncounted n ((name, p) ∷ ps) g (h, hs) u =
    stop_entries-Uncounted n ps _ hs (stop_plugin-Uncounted n name p g h u)

restart-Uncounted :
    (n : ℕ) (c : Check) (name : String) (p : ManagedPlugin) (g : Gateway)
    → IsUncounted p
    → Uncounted n g
    → Uncounted n (restart c name p g).0
unfolding restart
restart-Uncounted n c name p g h u =
    let u' : Uncounted n (stop_plugin name p g) = stop_plugin-Uncounted n name p g h u in
    let r = load_plugin c.launch p.manifest (stop_plugin name p g) in
    let v : Uncounted n r.0 = load_plugin-Uncounted n c.launch p.manifest _ u' in
    elim (Bool-cases c.stopped_in_backoff) [
      | inl b ↦ rw b u'
      | inr b ↦ elim (Option-cases r.1) [
        | inl e ↦ rw (b, e) v
        | inr (x, e) ↦ rw (b, e) (set_status-Uncounted n error name r.0 v)
      ]
    ]

health_check-Uncounted :
    (n : ℕ) (c : Check) (name : String) (p : ManagedPlugin) (g : Gateway)
    → IsUncounted p
    → Uncounted n g
    → Uncounted n (health_check c name p g).0
unfolding health_check
health_check-Uncounted n c name p g h u =
    elim (Bool-cases (not (is_running p.status) || not p.client)) [
      | inl e ↦ rw e u
      | inr e ↦ elim (Bool-cases c.ping_ok) [
        | inl o ↦ rw (e, o) u
        | inr o ↦ elim (Bool-cases (should_restart g p)) [
          | inl r ↦ rw (e, o, r) (restart-Uncounted n c name p g h u)
          | inr r ↦ rw (e, o, r) (set_status-Uncounted n error name g u)
        ]
      ]
    ]

health_check_entries-Uncounted :
    (n : ℕ) (answers : String → Check) (ps : Map ManagedPlugin) (g : Gateway)
    → AllValues IsUncounted ps
    → Uncounted n g
    → Uncounted n (health_check_entries answers ps g)
unfolding health_check_entries
health_check_entries-Uncounted n answers [] g h u = u
health_check_entries-Uncounted n answers ((name, p) ∷ ps) g (h, hs) u =
    let r = health_check (answers name) name p g in
    let v : Uncounted n r.0 = health_check-Uncounted n (answers name) name p g h u in
    elim (Bool-cases r.1) [
      | inl e ↦ rw e v
      | inr e ↦ rw e (health_check_entries-Uncounted n answers ps r.0 hs v)
    ]

step-Uncounted : (n : ℕ) (op : Op) (g : Gateway) → Uncounted n g → Uncounted n (step op g)
unfolding step stop health_check_all
step-Uncounted n (starts ms) g u = start-Uncounted n ms g u
step-Uncounted n (reloads name l) g u = reload_plugin-Uncounted n l name g u
step-Uncounted n (enables name l) g u = enable_plugin-Uncounted n l name g u
step-Uncounted n (disables name) g u = disable_plugin-Uncounted n name g u
step-Uncounted n (unloads name) g u = unload_plugin-Uncounted n name g u
step-Uncounted n (checks answers) g u = health_check_entries-Uncounted n answers g.plugins g u.0 u
step-Uncounted n stops g u = (tt, (stop_entries-Uncounted n g.plugins g u.0 u).1)

run-Uncounted : (n : ℕ) (ops : List Op) (g : Gateway) → Uncounted n g → Uncounted n (run ops g)
unfolding run
run-Uncounted n [] g u = u
run-Uncounted n (op ∷ ops) g u = run-Uncounted n ops (step op g) (step-Uncounted n op g u)

-- The restart limit is never reached: after any operations on a new gateway with a positive limit,
-- however many pings have failed, a plugin of the gateway has the restart count 0 and
-- `shouldRestart` answers yes.
pub never_gives_up :
    (configs : Map (Map ℕ)) (limit : ℕ) (ops : List Op) (name : String) (p : ManagedPlugin)
    → 0 < limit
    → lookup name (run ops (new_gateway configs limit)).plugins ≡ some p
    → (p.restart_count ≡ 0) × (should_restart (run ops (new_gateway configs limit)) p ≡ true)
unfolding new_gateway should_restart
never_gives_up configs limit ops name p h e =
    let g = run ops (new_gateway configs limit) in
    let u : Uncounted limit g = run-Uncounted limit ops (new_gateway configs limit) (tt, refl) in
    let z : p.restart_count ≡ 0 = AllValues-lookup IsUncounted name g.plugins u.0 e in
    (z, ground (arith, z, u.1))
