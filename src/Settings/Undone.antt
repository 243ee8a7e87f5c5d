-- ===== src/Settings/Undone.antt =====
-- What a failed update leaves of the pipeline: the rollback loop of ConfigReloader.Apply.
use nodeagentx.Prelude.{
  String, not, Option, none, some, List, [], ◌∷◌, All, ◌≡◌, refl, ap, ◌∙◌, inl, inr, if◌then◌else◌,
  Bool-cases, Option-cases,
}
use nodeagentx.Settings.Root.{Config}
use nodeagentx.Settings.Diff.{DeepEqual, ChangeSet}
use nodeagentx.Settings.Changes.{change_set}
use nodeagentx.Settings.Reload.{Reloader, ApplyError, roll_back, apply_reloaders}
use nodeagentx.Settings.Outcomes.{loop_ends, turn_skipped, turn_applied, turn_failed}
use nodeagentx.Settings.Reloaders.{
  World, to_reload_config, collector_reloader, auth_reloader, prometheus_reloader,
  reporter_reloader, reloaders,
}
use nodeagentx.Settings.Keepers.{apply_auth-cases}
use nodeagentx.Collector.Scheduler.Rebuild.{ReloadConfig}

module _ {P : Type 0} (cs : ChangeSet) (old new : Config) where
  -- A reloader that leaves the pipeline alone.
  record IsSparing (r : Reloader (World P)) : Type 0 where
    apply_spares : (w : World P) → (r.apply_config new w).0.pipeline ≡ w.pipeline
    rollback_spares : (w : World P) → (r.rollback old w).0.pipeline ≡ w.pipeline

  -- Reloaders that leave it alone add nothing to what the rollback of the earlier ones does to it.
  apply_reloaders-IsSparing :
      (f : P → P) (applied rs : List (Reloader (World P))) (w : World P)
      → ((v : World P) → (roll_back old applied v).pipeline ≡ f v.pipeline)
      → All IsSparing rs
      → (e : ApplyError) → (apply_reloaders cs old new applied rs w).1 ≡ some e
      → (apply_reloaders cs old new applied rs w).0.pipeline ≡ f w.pipeline
  unfolding roll_back
  apply_reloaders-IsSparing f applied [] w back ss e failed =
      cc (loop_ends cs old new applied w, failed)
  apply_reloaders-IsSparing f applied (r ∷ rs) w back (s, ss) e failed =
      elim (Bool-cases (r.can_reload cs)) [
        | inr skip ↦
            let turn = turn_skipped cs old new applied rs r w skip in
            rw turn (apply_reloaders-IsSparing f applied rs w back ss e (rw turn at failed))
        | inl go ↦ elim (Option-cases (r.apply_config new w).1) [
          | inl ok ↦
              let turn = turn_applied cs old new applied rs r w go ok in
              rw turn (
                apply_reloaders-IsSparing f (r ∷ applied) rs (r.apply_config new w).0
                  (λ v. back (r.rollback old v).0 ∙ ap f (s.rollback_spares v)) ss e
                  (rw turn at failed)
                ∙ ap f (s.apply_spares w))
          | inr (x, bad) ↦
              rw (turn_failed cs old new applied rs r w x go bad)
                (back (r.apply_config new w).0 ∙ ap f (s.apply_spares w))
        ]
      ]

module _ {P : Type 0} (reload : ReloadConfig → P → P × Option String) where
  -- A reload that failed is left there; one that succeeded is followed by a reload of the old
  -- configuration.
  unfoldable pub undo : Config → P × Option String → P
  undo old (p, some e) = p
  undo old (p, none) = (reload (to_reload_config old.collector) p).0

  undo-none :
      (old : Config) (out : P × Option String)
      → out.1 ≡ none
      → undo old out ≡ (reload (to_reload_config old.collector) out.0).0
  unfolding undo
  undo-none old (p, none) h = refl
  undo-none old (p, some e) h = cc h

  undo-some :
      (old : Config) (out : P × Option String) (e : String) → out.1 ≡ some e → undo old out ≡ out.0
  unfolding undo
  undo-some old (p, none) e h = cc h
  undo-some old (p, some x) e h = refl

  after_collector : List (Reloader (World P))
  after_collector = auth_reloader ∷ prometheus_reloader ∷ reporter_reloader ∷ []

  after_collector-IsSparing :
      (old new : Config) (cs : ChangeSet) → All (IsSparing cs old new) after_collector
  unfolding after_collector auth_reloader prometheus_reloader reporter_reloader
  after_collector-IsSparing old new cs = (
    record {
      apply_spares = λ w. elim (apply_auth-cases new w) [
        | inl (on, done) ↦ rw done refl
        | inr (x, failed) ↦ rw failed refl
      ];
      rollback_spares = λ w. refl;
    },
    (
      record { apply_spares = λ w. refl; rollback_spares = λ w. refl },
      (record { apply_spares = λ w. refl; rollback_spares = λ w. refl }, tt),
    ),
  )

  -- The pipeline that a failure of a reloader leaves: it was not touched when the two configurations
  -- agree on it.
  unfoldable pub pipeline_left : DeepEqual → Config → Config → P → P
  unfolding undo
  pipeline_left D old new p =
      if D.collector_equal old.collector new.collector
      then p
      else undo old (reload (to_reload_config new.collector) p)

  pub apply_reloaders-pipeline_left :
      (D : DeepEqual) (old new : Config) (w : World P) (e : ApplyError)
      → (apply_reloaders (change_set D old new) old new [] (reloaders reload) w).1 ≡ some e
      → (apply_reloaders (change_set D old new) old new [] (reloaders reload) w).0.pipeline
        ≡ pipeline_left D old new w.pipeline
  unfolding reloaders collector_reloader change_set roll_back after_collector pipeline_left
      apply_reloaders
  apply_reloaders-pipeline_left D old new w e failed =
      let cs = change_set D old new in
      let c = collector_reloader reload in
      let made = reload (to_reload_config new.collector) w.pipeline in
      let spared = after_collector-IsSparing old new cs in
      elim (Bool-cases (D.collector_equal old.collector new.collector)) [
        | inl same ↦
            let turn = turn_skipped cs old new [] after_collector c w (ap not same) in
            rw (turn, same)
              (apply_reloaders-IsSparing cs old new (λ p. p) [] after_collector w (λ v. refl) spared
                e (rw turn at failed))
        | inr changed ↦ elim (Option-cases made.1) [
          | inl ok ↦
              let turn = turn_applied cs old new [] after_collector c w (ap not changed) ok in
              rw (turn, changed, undo-none old made ok)
                (apply_reloaders-IsSparing cs old new
                  (λ p. (reload (to_reload_config old.collector) p).0) (c ∷ []) after_collector
                  (c.apply_config new w).0 (λ v. refl) spared e (rw turn at failed))
          | inr (x, bad) ↦
              rw
                (
                  turn_failed cs old new [] after_collector c w x (ap not changed) bad,
                  changed,
                  undo-some old made x bad,
                )
                refl
        ]
      ]
