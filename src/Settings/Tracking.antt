-- ===== src/Settings/Tracking.antt =====
-- A part of the state that one reloader keeps: it follows the configuration through every outcome of
-- an update.
use nodeagentx.Prelude.{
  String, false, none, some, List, [], ◌∷◌, All, ◌≡◌, ◌∙◌, ◌⊎◌, inl, inr, Bool-cases, Option-cases,
}
use nodeagentx.Settings.Root.{Config}
use nodeagentx.Settings.Diff.{ChangeSet}
use nodeagentx.Settings.Reload.{Reloader, ApplyError, roll_back, apply_reloaders}
use nodeagentx.Settings.Outcomes.{loop_ends, turn_skipped, turn_applied, turn_failed}

module _ {W V : Type 0} (view : W → V) (want : Config → V) (cs : ChangeSet) (old new : Config) where
  -- The reloader that keeps the part.
  pub record IsKeeper (r : Reloader W) : Type 0 where
    pub apply_sets :
        (w : W) → (r.apply_config new w).1 ≡ none → view (r.apply_config new w).0 ≡ want new
    pub failed_keeps :
        (w : W) (e : String)
        → (r.apply_config new w).1 ≡ some e
        → view (r.apply_config new w).0 ≡ view w
    pub rollback_sets : (w : W) → view (r.rollback old w).0 ≡ want old
    pub skips_only_equal : r.can_reload cs ≡ false → want old ≡ want new

  -- A reloader that leaves the part alone.
  pub record IsApart (r : Reloader W) : Type 0 where
    pub apply_keeps : (w : W) → view (r.apply_config new w).0 ≡ view w
    pub rollback_keeps : (w : W) → view (r.rollback old w).0 ≡ view w

  abbrev pub IsPart : Reloader W → Type 0
  IsPart r = IsKeeper r ⊎ IsApart r

  -- Some reloader of the list is the keeper.
  abbrev pub HasKeeper : List (Reloader W) → Type 0
  HasKeeper [] = ⊥
  HasKeeper (r ∷ rs) = IsKeeper r ⊎ HasKeeper rs

  roll_back-old :
      (applied : List (Reloader W)) (w : W)
      → All IsPart applied
      → (view w ≡ want old) ⊎ HasKeeper applied
      → view (roll_back old applied w) ≡ want old
  unfolding roll_back
  roll_back-old [] w parts (inl h) = h
  roll_back-old [] w parts (inr none_left) = elim none_left [ ]
  roll_back-old (r ∷ applied) w (inl k, parts) h =
      roll_back-old applied (r.rollback old w).0 parts (inl (k.rollback_sets w))
  roll_back-old (r ∷ applied) w (inr a, parts) (inl h) =
      roll_back-old applied (r.rollback old w).0 parts (inl (a.rollback_keeps w ∙ h))
  roll_back-old (r ∷ applied) w (inr a, parts) (inr (inl k)) =
      roll_back-old applied (r.rollback old w).0 parts (inl (k.rollback_sets w))
  roll_back-old (r ∷ applied) w (inr a, parts) (inr (inr k)) =
      roll_back-old applied (r.rollback old w).0 parts (inr k)

  failed_view :
      (r : Reloader W) (w : W) (e : String)
      → IsPart r
      → (r.apply_config new w).1 ≡ some e
      → view (r.apply_config new w).0 ≡ view w
  failed_view r w e (inl k) h = k.failed_keeps w e h
  failed_view r w e (inr a) h = a.apply_keeps w

  keeps_old :
      (r : Reloader W) (w : W)
      → IsPart r
      → (r.apply_config new w).1 ≡ none
      → (applied : List (Reloader W)) → (view w ≡ want old) ⊎ HasKeeper applied
      → (view (r.apply_config new w).0 ≡ want old) ⊎ HasKeeper (r ∷ applied)
  keeps_old r w (inl k) ok applied h = inr (inl k)
  keeps_old r w (inr a) ok applied (inl h) = inl (a.apply_keeps w ∙ h)
  keeps_old r w (inr a) ok applied (inr k) = inr (inr k)

  still_old :
      (r : Reloader W) (w : W) (e : String)
      → IsPart r
      → (r.apply_config new w).1 ≡ some e
      → (applied : List (Reloader W)) → (view w ≡ want old) ⊎ HasKeeper applied
      → (view (r.apply_config new w).0 ≡ want old) ⊎ HasKeeper applied
  still_old r w e p failed applied (inl h) = inl (failed_view r w e p failed ∙ h)
  still_old r w e p failed applied (inr k) = inr k

  -- After a failure the part follows the old configuration.
  pub apply_reloaders-old :
      (applied rs : List (Reloader W)) (w : W)
      → All IsPart applied
      → All IsPart rs
      → (view w ≡ want old) ⊎ HasKeeper applied
      → (e : ApplyError) → (apply_reloaders cs old new applied rs w).1 ≡ some e
      → view (apply_reloaders cs old new applied rs w).0 ≡ want old
  apply_reloaders-old applied [] w pa ps h e failed = cc (loop_ends cs old new applied w, failed)
  apply_reloaders-old applied (r ∷ rs) w pa (p, ps) h e failed =
      elim (Bool-cases (r.can_reload cs)) [
        | inr skip ↦
            let turn = turn_skipped cs old new applied rs r w skip in
            rw turn (apply_reloaders-old applied rs w pa ps h e (rw turn at failed))
        | inl go ↦ elim (Option-cases (r.apply_config new w).1) [
          | inl ok ↦
              let turn = turn_applied cs old new applied rs r w go ok in
              rw turn (
                apply_reloaders-old (r ∷ applied) rs (r.apply_config new w).0 (p, pa) ps
                  (keeps_old r w p ok applied h) e (rw turn at failed))
          | inr (x, bad) ↦
              rw (turn_failed cs old new applied rs r w x go bad) (
                roll_back-old applied (r.apply_config new w).0 pa (still_old r w x p bad applied h))
        ]
      ]

  sets_new :
      (r : Reloader W) (w : W) (rs : List (Reloader W))
      → IsPart r
      → (r.apply_config new w).1 ≡ none
      → (view w ≡ want new) ⊎ ((view w ≡ want old) × HasKeeper (r ∷ rs))
      → (view (r.apply_config new w).0 ≡ want new)
        ⊎ ((view (r.apply_config new w).0 ≡ want old) × HasKeeper rs)
  sets_new r w rs (inl k) ok h = inl (k.apply_sets w ok)
  sets_new r w rs (inr a) ok (inl h) = inl (a.apply_keeps w ∙ h)
  sets_new r w rs (inr a) ok (inr (h, inl k)) = inl (k.apply_sets w ok)
  sets_new r w rs (inr a) ok (inr (h, inr k)) = inr (a.apply_keeps w ∙ h, k)

  skips_new :
      (r : Reloader W) (w : W) (rs : List (Reloader W))
      → r.can_reload cs ≡ false
      → (view w ≡ want new) ⊎ ((view w ≡ want old) × HasKeeper (r ∷ rs))
      → (view w ≡ want new) ⊎ ((view w ≡ want old) × HasKeeper rs)
  skips_new r w rs skip (inl h) = inl h
  skips_new r w rs skip (inr (h, inl k)) = inl (h ∙ k.skips_only_equal skip)
  skips_new r w rs skip (inr (h, inr k)) = inr (h, k)

  -- After a success it follows the new one.
  pub apply_reloaders-new :
      (applied rs : List (Reloader W)) (w : W)
      → All IsPart rs
      → (view w ≡ want new) ⊎ ((view w ≡ want old) × HasKeeper rs)
      → (apply_reloaders cs old new applied rs w).1 ≡ none
      → view (apply_reloaders cs old new applied rs w).0 ≡ want new
  apply_reloaders-new applied [] w ps (inl h) done = rw (loop_ends cs old new applied w) h
  apply_reloaders-new applied [] w ps (inr (h, none_left)) done = elim none_left [ ]
  apply_reloaders-new applied (r ∷ rs) w (p, ps) h done = elim (Bool-cases (r.can_reload cs)) [
    | inr skip ↦
        let turn = turn_skipped cs old new applied rs r w skip in
        rw turn (apply_reloaders-new applied rs w ps (skips_new r w rs skip h) (rw turn at done))
    | inl go ↦ elim (Option-cases (r.apply_config new w).1) [
      | inl ok ↦
          let turn = turn_applied cs old new applied rs r w go ok in
          rw turn (
            apply_reloaders-new (r ∷ applied) rs (r.apply_config new w).0 ps
              (sets_new r w rs p ok h) (rw turn at done))
      | inr (x, bad) ↦ cc (turn_failed cs old new applied rs r w x go bad, done)
    ]
  ]

-- What every reloader keeps, the loop keeps.
module _ {W : Type 0} (Holds : W → Type 0) (old new : Config) where
  pub record IsStable (r : Reloader W) : Type 0 where
    pub apply_stable : (w : W) → Holds w → Holds (r.apply_config new w).0
    pub rollback_stable : (w : W) → Holds w → Holds (r.rollback old w).0

  roll_back-Holds :
      (applied : List (Reloader W)) (w : W)
      → All IsStable applied
      → Holds w
      → Holds (roll_back old applied w)
  unfolding roll_back
  roll_back-Holds [] w ss h = h
  roll_back-Holds (r ∷ applied) w (s, ss) h =
      roll_back-Holds applied (r.rollback old w).0 ss (s.rollback_stable w h)

  pub apply_reloaders-Holds :
      (cs : ChangeSet) (applied rs : List (Reloader W)) (w : W)
      → All IsStable applied
      → All IsStable rs
      → Holds w
      → Holds (apply_reloaders cs old new applied rs w).0
  apply_reloaders-Holds cs applied [] w sa ss h = rw (loop_ends cs old new applied w) h
  apply_reloaders-Holds cs applied (r ∷ rs) w sa (s, ss) h = elim (Bool-cases (r.can_reload cs)) [
    | inr skip ↦
        rw (turn_skipped cs old new applied rs r w skip)
          (apply_reloaders-Holds cs applied rs w sa ss h)
    | inl go ↦ elim (Option-cases (r.apply_config new w).1) [
      | inl ok ↦ rw (turn_applied cs old new applied rs r w go ok) (
          apply_reloaders-Holds cs (r ∷ applied) rs (r.apply_config new w).0 (s, sa) ss
            (s.apply_stable w h))
      | inr (x, bad) ↦
          rw (turn_failed cs old new applied rs r w x go bad)
            (roll_back-Holds applied (r.apply_config new w).0 sa (s.apply_stable w h))
    ]
  ]
