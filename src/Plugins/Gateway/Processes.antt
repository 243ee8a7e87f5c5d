-- ===== src/Plugins/Gateway/Processes.antt =====
-- The processes of the gateway: which were started, which were killed, and which a plugin holds.
use nodeagentx.Prelude.{
  ℕ, ◌+◌, String, ◌≡◌, refl, false, Option, none, some, eq_iff, str_eq, List, [], ◌∷◌, ◌==◌,
  if◌then◌else◌, Bool-cases, inl, inr, arith, subst, sym, ap, ◌∙◌,
}
use nodeagentx.Prelude.Maps.{
  Map, lookup, insert, remove, Distinct, AllEntries, AllEntries-insert, AllEntries-lookup,
  Distinct-insert, remove_absent, lookup-insert, lookup-insert_self,
}
use nodeagentx.Plugins.Names.{is_valid_name}
use nodeagentx.Plugins.Gateway.{
  Effect, start_process, kill_process, on_unloaded, PluginStatus, running, stopped, error, disabled,
  Manifest, ManagedPlugin, Gateway, Launch, mkdir_fails, is_symlink, start_fails, times_out,
  launched, launch, load_plugin, kill, stop_entry, stop_plugin, launched_plugin,
}

-- How often a process was started, and killed.
abbrev pub started : ℕ → List Effect → ℕ
started k [] = 0
started k (start_process pid ∷ es) = (if pid == k then 1 else 0) + started k es
started k (_ ∷ es) = started k es

abbrev pub killed : ℕ → List Effect → ℕ
killed k [] = 0
killed k (kill_process pid ∷ es) = (if pid == k then 1 else 0) + killed k es
killed k (_ ∷ es) = killed k es

-- How often a plugin holds a process.
abbrev pub holds : ℕ → Option ℕ → ℕ
holds k none = 0
holds k (some pid) = if pid == k then 1 else 0

abbrev pub held : ℕ → Map ManagedPlugin → ℕ
held k [] = 0
held k ((name, p) ∷ m) = holds k p.process + held k m

abbrev pub held_at : ℕ → Option ManagedPlugin → ℕ
held_at k none = 0
held_at k (some p) = holds k p.process

pub held-insert :
    (k : ℕ) (name : String) (p : ManagedPlugin) (m : Map ManagedPlugin)
    → held k (insert name p m) + held_at k (lookup name m) ≡ held k m + holds k p.process
unfolding insert lookup
held-insert k name p [] = omega arith
held-insert k name p ((j, q) ∷ m) = elim (Bool-cases (str_eq j name)) [
  | inl e ↦ rw e (omega arith)
  | inr e ↦ rw e (omega (arith, held-insert k name p m))
]

pub held-remove :
    (k : ℕ) (name : String) (m : Map ManagedPlugin)
    → Distinct m
    → held k (remove name m) + held_at k (lookup name m) ≡ held k m
unfolding remove lookup
held-remove k name [] d = omega arith
held-remove k name ((j, q) ∷ m) (h, d) = elim (Bool-cases (str_eq j name)) [
  | inl e ↦
      let h' : lookup name m ≡ none = subst (λ i. lookup i m ≡ none) ((eq_iff j name).0 e) h in
      rw (e, remove_absent name m h') (omega arith)
  | inr e ↦ rw e (omega (arith, held-remove k name m d))
]

-- A plugin that is stopped or disabled has no process.
abbrev pub Quiet : PluginStatus → Option ℕ → Type 0
Quiet stopped o = o ≡ none
Quiet disabled o = o ≡ none
Quiet _ o = Unit

abbrev pub IsEntry : String → ManagedPlugin → Type 0
IsEntry name p = Quiet p.status p.process × (p.manifest.name ≡ name)

-- Every started process is killed or held by one plugin, and the map is as Go keeps it.
pub record Inv (g : Gateway) : Type 0 where
  pub balanced : (k : ℕ) → started k g.effects ≡ killed k g.effects + held k g.plugins
  pub distinct : Distinct g.plugins
  pub entries : AllEntries IsEntry g.plugins

-- Nothing runs under a name.
abbrev pub Free : String → Gateway → Type 0
Free name g = (k : ℕ) → held_at k (lookup name g.plugins) ≡ 0

launch-Inv :
    (l : Launch) (m : Manifest) (g : Gateway) → Inv g → Free m.name g → Inv (launch l m g).0
unfolding launch
launch-Inv mkdir_fails m g v f = v
launch-Inv is_symlink m g v f = v
launch-Inv start_fails m g v f = v
launch-Inv (times_out pid) m g v f = record {
  balanced = λ k. omega (arith, v.balanced k);
  distinct = v.distinct;
  entries = v.entries;
}
launch-Inv (launched pid) m g v f = record {
  balanced = λ k.
      omega (arith, v.balanced k, f k, held-insert k m.name (launched_plugin g m pid) g.plugins);
  distinct = Distinct-insert m.name _ g.plugins v.distinct;
  entries = AllEntries-insert IsEntry m.name _ g.plugins (tt, refl) v.entries;
}

pub load_plugin-Inv :
    (l : Launch) (m : Manifest) (g : Gateway) → Inv g → Free m.name g → Inv (load_plugin l m g).0
unfolding load_plugin
load_plugin-Inv l m g v f = elim (Bool-cases (is_valid_name m.name)) [
  | inl e ↦ rw e (launch-Inv l _ g v f)
  | inr e ↦ rw e v
]

started-kill :
    (k : ℕ) (o : Option ℕ) (g : Gateway) → started k (kill o g).effects ≡ started k g.effects
started-kill k none g = refl
started-kill k (some pid) g = refl

killed-kill :
    (k : ℕ) (o : Option ℕ) (g : Gateway)
    → killed k (kill o g).effects ≡ killed k g.effects + holds k o
killed-kill k none g = omega arith
killed-kill k (some pid) g = omega arith

pub plugins-kill : (o : Option ℕ) (g : Gateway) → (kill o g).plugins ≡ g.plugins
plugins-kill none g = refl
plugins-kill (some pid) g = refl

-- What a stop does to the entry `p` under `name`: it keeps the invariant and frees the name, other
-- entries stay, and what `p` held is killed.
pub record Stops (name : String) (p : ManagedPlugin) (g g' : Gateway) : Type 0 where
  pub inv : Inv g'
  pub free : Free name g'
  pub others : (j : String) → str_eq name j ≡ false → lookup j g'.plugins ≡ lookup j g.plugins
  pub kills : (k : ℕ) → killed k g'.effects ≡ killed k g.effects + holds k p.process
  pub starts_none : (k : ℕ) → started k g'.effects ≡ started k g.effects

module _ (name : String) (p : ManagedPlugin) (g : Gateway) (v : Inv g)
    (e : lookup name g.plugins ≡ some p) where
  abbrev stopped_plugin : ManagedPlugin
  stopped_plugin = record p { status = stopped; client = false; process = none }

  abbrev updated : Gateway
  updated = record g { plugins = insert name stopped_plugin g.plugins }

  abbrev logged : Gateway
  logged = record (kill p.process updated) {
    effects = on_unloaded name p.manifest.task_types ∷ (kill p.process updated).effects;
  }

  logged-Stops : Stops name p g logged
  logged-Stops =
      let same : logged.plugins ≡ updated.plugins = plugins-kill p.process updated in
      let self : lookup name updated.plugins ≡ some stopped_plugin =
        lookup-insert_self name stopped_plugin g.plugins in
      record {
        inv = record {
          balanced = λ k. omega (
            arith,
            v.balanced k,
            started-kill k p.process updated,
            killed-kill k p.process updated,
            ap (held k) same,
            held-insert k name stopped_plugin g.plugins,
            ap (held_at k) e,
          );
          distinct = subst Distinct (sym same) (Distinct-insert name _ g.plugins v.distinct);
          entries = subst (AllEntries IsEntry) (sym same) (
              AllEntries-insert IsEntry name _ g.plugins
                (refl, (AllEntries-lookup IsEntry name g.plugins v.entries e).1) v.entries);
        };
        free = λ k. ap (λ m. held_at k (lookup name m)) same ∙ ap (held_at k) self;
        others = λ j h. ap (lookup j) same ∙ lookup-insert name j stopped_plugin g.plugins ∙ rw h;
        kills = λ k. killed-kill k p.process updated;
        starts_none = λ k. started-kill k p.process updated;
      }

  quiet-Stops : p.process ≡ none → Stops name p g g
  quiet-Stops h = record {
    inv = v;
    free = λ k. ap (held_at k) e ∙ ap (holds k) h;
    others = λ j t. refl;
    kills = λ k. omega (arith, ap (holds k) h);
    starts_none = λ k. refl;
  }

  stop_entry-Stops : (s : PluginStatus) → p.status ≡ s → Stops name p g (stop_entry s name p g)
  unfolding stop_entry
  stop_entry-Stops running h = logged-Stops
  stop_entry-Stops error h = logged-Stops
  stop_entry-Stops stopped h =
      quiet-Stops
        (subst (λ s. Quiet s p.process) h (AllEntries-lookup IsEntry name g.plugins v.entries e).0)
  stop_entry-Stops disabled h =
      quiet-Stops
        (subst (λ s. Quiet s p.process) h (AllEntries-lookup IsEntry name g.plugins v.entries e).0)

  pub stop_plugin-Stops : Stops name p g (stop_plugin name p g)
  unfolding stop_plugin
  stop_plugin-Stops = stop_entry-Stops p.status refl
