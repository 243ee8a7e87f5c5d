-- ===== src/Plugins/Gateway/NoLeak.antt =====
-- Every operation of the gateway accounts for the processes, and a stop leaves none.
use nodeagentx.Prelude.{
  ℕ, ◌+◌, ◌≡◌, ◌≢◌, refl, true, false, none, eq_iff, str_eq, All, List, [], ◌∷◌, arith, ap, ◌∙◌,
}
use nodeagentx.Prelude.Maps.{Map, lookup, insert, AllEntries-self}
use nodeagentx.Plugins.Names.{is_valid_name}
use nodeagentx.Plugins.Gateway.{
  Manifest, Gateway, Launch, launched, load_plugin, stop_plugin, start, stop_entries, stop,
  health_check_all, Op, starts, reloads, enables, disables, unloads, checks, stops, step, run,
  new_gateway,
}
use nodeagentx.Plugins.Gateway.Processes.{started, killed, held, held_at, Inv, load_plugin-Inv}
use nodeagentx.Plugins.Gateway.Operations.{
  load_plugin-others, health_check_entries-Inv, stop_entries-Stops, reload_plugin-Local,
  enable_plugin-Local, disable_plugin-Local, unload_plugin-Inv,
}

-- Every operation but a start.
abbrev pub IsAfterStart : Op → Type 0
IsAfterStart (starts ms) = ⊥
IsAfterStart _ = Unit

stop-balanced :
    (g : Gateway) (k : ℕ) → Inv g → started k (stop g).effects ≡ killed k (stop g).effects
unfolding stop
stop-balanced g k v =
    let (_, counts) =
      stop_entries-Stops g.plugins g v v.distinct (AllEntries-self g.plugins v.distinct) in
    omega (arith, (counts k).0, (counts k).1, v.balanced k)

step-Inv : (op : Op) (g : Gateway) → IsAfterStart op → Inv g → Inv (step op g)
unfolding step stop health_check_all
step-Inv (starts ms) g o v = absurd o
step-Inv (reloads name l) g o v = (reload_plugin-Local name g v l).inv
step-Inv (enables name l) g o v = (enable_plugin-Local name g v l).inv
step-Inv (disables name) g o v = (disable_plugin-Local name g v).inv
step-Inv (unloads name) g o v = unload_plugin-Inv name g v
step-Inv (checks answers) g o v =
    health_check_entries-Inv answers g.plugins g v v.distinct (AllEntries-self g.plugins v.distinct)
step-Inv stops g o v = record {
  balanced = λ k. omega (arith, stop-balanced g k v);
  distinct = tt;
  entries = tt;
}

run-Inv : (ops : List Op) (g : Gateway) → All IsAfterStart ops → Inv g → Inv (run ops g)
unfolding run
run-Inv [] g o v = v
run-Inv (op ∷ ops) g o v = run-Inv ops (step op g) o.1 (step-Inv op g o.0 v)

-- The names of the manifests differ.
abbrev pub DistinctNames : List (Manifest × Launch) → Type 0
DistinctNames [] = Unit
DistinctNames ((m, l) ∷ ms) = All (λ e. str_eq m.name e.0.name ≡ false) ms × DistinctNames ms

abbrev Absent : Gateway → List (Manifest × Launch) → Type 0
Absent g = All (λ e. lookup e.0.name g.plugins ≡ none)

Absent-load :
    (l : Launch) (m : Manifest) (g : Gateway) (ms : List (Manifest × Launch))
    → All (λ e. str_eq m.name e.0.name ≡ false) ms
    → Absent g ms
    → Absent (load_plugin l m g).0 ms
Absent-load l m g [] n a = tt
Absent-load l m g ((m', l') ∷ ms) n a =
    (load_plugin-others l m g m'.name n.0 ∙ a.0, Absent-load l m g ms n.1 a.1)

start-Inv :
    (ms : List (Manifest × Launch)) (g : Gateway)
    → DistinctNames ms
    → Absent g ms
    → Inv g
    → Inv (start ms g)
unfolding start
start-Inv [] g d a v = v
start-Inv ((m, l) ∷ ms) g d a v =
    start-Inv ms (load_plugin l m g).0 d.1 (Absent-load l m g ms d.0 a.1)
      (load_plugin-Inv l m g v (λ k. ap (held_at k) a.0))

Absent-new :
    (configs : Map (Map ℕ)) (limit : ℕ) (ms : List (Manifest × Launch))
    → Absent (new_gateway configs limit) ms
unfolding new_gateway lookup
Absent-new configs limit [] = tt
Absent-new configs limit (m ∷ ms) = (refl, Absent-new configs limit ms)

new_gateway-Inv : (configs : Map (Map ℕ)) (limit : ℕ) → Inv (new_gateway configs limit)
unfolding new_gateway
new_gateway-Inv configs limit = record { balanced = λ k. omega arith; distinct = tt; entries = tt }

-- A new gateway is started on manifests with different names, and then takes any operations other
-- than a start. At every point each process was started as often as it was killed or is held by a
-- plugin.
pub run_accounts :
    (configs : Map (Map ℕ)) (limit : ℕ) (ms : List (Manifest × Launch)) (ops : List Op) (k : ℕ)
    → DistinctNames ms
    → All IsAfterStart ops
    → let g = run ops (start ms (new_gateway configs limit)) in
      started k g.effects ≡ killed k g.effects + held k g.plugins
run_accounts configs limit ms ops k d o =
    (run-Inv ops _ o
        (start-Inv ms _ d (Absent-new configs limit ms) (new_gateway-Inv configs limit))).balanced
      k

-- In the same setting, once the gateway is stopped every process was killed as often as started.
pub stop_leaves_none :
    (configs : Map (Map ℕ)) (limit : ℕ) (ms : List (Manifest × Launch)) (ops : List Op) (k : ℕ)
    → DistinctNames ms
    → All IsAfterStart ops
    → let g = stop (run ops (start ms (new_gateway configs limit))) in
      started k g.effects ≡ killed k g.effects
stop_leaves_none configs limit ms ops k d o = stop-balanced _ k (
    run-Inv ops _ o
      (start-Inv ms _ d (Absent-new configs limit ms) (new_gateway-Inv configs limit)))

-- Discovery does not compare names: of two manifests with one valid name that both launch, the first
-- process is started and never killed, not even when the gateway is stopped.
pub start_same_name_leaks :
    (configs : Map (Map ℕ)) (limit : ℕ) (m m' : Manifest) (pid pid' : ℕ)
    → is_valid_name m.name ≡ true
    → m'.name ≡ m.name
    → pid ≢ pid'
    → let g =
        stop (start ((m, launched pid) ∷ (m', launched pid') ∷ []) (new_gateway configs limit)) in
      (started pid g.effects ≡ 1) × (killed pid g.effects ≡ 0)
unfolding stop start new_gateway load_plugin stop_entries stop_plugin insert lookup
start_same_name_leaks configs limit m m' pid pid' v e n =
    ground (arith, eq_iff m.name m'.name, ap is_valid_name e)
