-- ===== src/Settings/Keepers.antt =====
-- The reloaders of the agent, one by one: which part of the server each keeps.
use nodeagentx.Prelude.{
  ◌≤◌, String, Bool, true, false, not, Option, none, some, All, ◌≡◌, refl, ◌⊎◌, inl, inr,
  Bool-cases, ltb, str_eq, arith,
}
use nodeagentx.Prelude.Text.{is_empty, byte_length}
use nodeagentx.Settings.Root.{Config}
use nodeagentx.Settings.Validate.{validate}
use nodeagentx.Settings.Accepted.{validate-byte_length}
use nodeagentx.Settings.Diff.{DeepEqual, bool_equal, diff_auth, diff_prometheus}
use nodeagentx.Settings.Changes.{change_set}
use nodeagentx.Settings.Fixed.{and-true, bool_equal-eq, str_eq-eq}
use nodeagentx.Settings.Tracking.{IsKeeper, IsPart, HasKeeper, IsStable}
use nodeagentx.Settings.Reloaders.{
  World, auth_of, prometheus_of, update_auth, collector_reloader, apply_auth, auth_reloader,
  prometheus_reloader, reporter_reloader, reloaders,
}
use nodeagentx.Collector.Scheduler.Rebuild.{ReloadConfig}

not-false : (b : Bool) → not b ≡ false → b ≡ true
not-false true h = refl
not-false false h = cc h

is_empty-false : (s : String) → 32 ≤ byte_length s → is_empty s ≡ false
unfolding is_empty byte_length
is_empty-false String.[] h = ground (arith, h)
is_empty-false (String.◌∷◌ c s) h = refl

module _ {P : Type 0} where
  -- When the configuration was accepted and its authentication is enabled, AuthReloader.Apply
  -- succeeds, and the server then has the configuration's authentication.
  apply_auth-accepted :
      (c : Config) (w : World P)
      → validate c ≡ none
      → c.auth.enabled ≡ true
      → ((apply_auth c w).1 ≡ none) × ((apply_auth c w).0.auth ≡ auth_of c)
  unfolding apply_auth
  apply_auth-accepted c w accepted enabled =
      let long = validate-byte_length c accepted enabled in
      let short : ltb (byte_length c.auth.bearer_token) 32 ≡ false = ground (arith, long) in
      rw (enabled, is_empty-false c.auth.bearer_token long, short) (refl, refl)

  -- The two outcomes of AuthReloader.Apply.
  pub apply_auth-cases :
      (c : Config) (w : World P)
      → ((c.auth.enabled ≡ true) × (apply_auth c w ≡ (update_auth (auth_of c) w, none)))
        ⊎ ((e : String) × (apply_auth c w ≡ (w, some e)))
  unfolding apply_auth
  apply_auth-cases c w = elim (Bool-cases c.auth.enabled) [
    | inr off ↦ inr ("auth cannot be disabled via hot-reload (restart required)", rw off refl)
    | inl on ↦ elim (Bool-cases (is_empty c.auth.bearer_token)) [
      | inl blank ↦ inr ("bearer_token cannot be empty", rw (on, blank) refl)
      | inr given ↦ elim (Bool-cases (ltb (byte_length c.auth.bearer_token) 32)) [
        | inl short ↦
            inr ("bearer_token must be at least 32 characters", rw (on, given, short) refl)
        | inr long ↦ inl (on, rw (on, given, long) refl)
      ]
    ]
  ]

  module _ (D : DeepEqual) (old new : Config) where
    auth-IsKeeper :
        IsKeeper (λ w. w.auth) auth_of (change_set D old new) old new (auth_reloader {P = P})
    unfolding auth_reloader change_set diff_auth
    auth-IsKeeper = record {
      apply_sets = λ w ok. elim (apply_auth-cases new w) [
        | inl (on, done) ↦ rw done refl
        | inr (e, failed) ↦ cc (failed, ok)
      ];
      failed_keeps = λ w e bad. elim (apply_auth-cases new w) [
        | inl (on, done) ↦ cc (done, bad)
        | inr (x, failed) ↦ rw failed refl
      ];
      rollback_sets = λ w. refl;
      skips_only_equal = λ same.
          let (enabled, token) =
            and-true _ (str_eq old.auth.bearer_token new.auth.bearer_token) (not-false _ same) in
          λ i. record {
            enabled = bool_equal-eq _ _ enabled i;
            bearer_token = str_eq-eq _ _ token i;
          };
    }

    prometheus-IsKeeper :
        IsKeeper
          (λ w. w.prometheus)
          prometheus_of
          (change_set D old new)
          old
          new
          (prometheus_reloader {P = P})
    unfolding prometheus_reloader change_set diff_prometheus
    prometheus-IsKeeper = record {
      apply_sets = λ w h. refl;
      failed_keeps = λ w e h. cc h;
      rollback_sets = λ w. refl;
      skips_only_equal = λ same.
          let (rest, protected) =
            and-true _
              (bool_equal old.prometheus.protect_with_auth new.prometheus.protect_with_auth)
              (not-false _ same) in
          let (enabled, path) =
            and-true (bool_equal old.prometheus.enabled new.prometheus.enabled)
              (str_eq old.prometheus.path new.prometheus.path) rest in
          λ i. record {
            enabled = bool_equal-eq _ _ enabled i;
            path = str_eq-eq _ _ path i;
            protect_with_auth = bool_equal-eq _ _ protected i;
          };
    }

    module _ (reload : ReloadConfig → P → P × Option String) where
      pub auth-IsPart :
          All (IsPart (λ w. w.auth) auth_of (change_set D old new) old new) (reloaders reload)
      unfolding reloaders collector_reloader prometheus_reloader reporter_reloader
      auth-IsPart = (
        inr (record { apply_keeps = λ w. refl; rollback_keeps = λ w. refl }),
        (
          inl auth-IsKeeper,
          (
            inr (record { apply_keeps = λ w. refl; rollback_keeps = λ w. refl }),
            (inr (record { apply_keeps = λ w. refl; rollback_keeps = λ w. refl }), tt),
          ),
        ),
      )

      pub auth-HasKeeper :
          HasKeeper (λ w. w.auth) auth_of (change_set D old new) old new (reloaders reload)
      unfolding reloaders
      auth-HasKeeper = inr (inl auth-IsKeeper)

      pub prometheus-HasKeeper :
          HasKeeper
            (λ w. w.prometheus)
            prometheus_of
            (change_set D old new)
            old
            new
            (reloaders reload)
      unfolding reloaders
      prometheus-HasKeeper = inr (inr (inl prometheus-IsKeeper))

      pub prometheus-IsPart :
          All
            (IsPart (λ w. w.prometheus) prometheus_of (change_set D old new) old new)
            (reloaders reload)
      unfolding reloaders collector_reloader auth_reloader reporter_reloader
      prometheus-IsPart = (
        inr (record { apply_keeps = λ w. refl; rollback_keeps = λ w. refl }),
        (
          inr (record {
            apply_keeps = λ w. elim (apply_auth-cases new w) [
              | inl (on, done) ↦ rw done refl
              | inr (x, failed) ↦ rw failed refl
            ];
            rollback_keeps = λ w. refl;
          }),
          (
            inl prometheus-IsKeeper,
            (inr (record { apply_keeps = λ w. refl; rollback_keeps = λ w. refl }), tt),
          ),
        ),
      )

      pub enabled-IsStable :
          old.auth.enabled ≡ true
          → All (IsStable (λ w. w.auth.enabled ≡ true) old new) (reloaders reload)
      unfolding reloaders collector_reloader auth_reloader prometheus_reloader reporter_reloader
      enabled-IsStable on = (
        record { apply_stable = λ w h. h; rollback_stable = λ w h. h },
        (
          record {
            apply_stable = λ w h. elim (apply_auth-cases new w) [
              | inl (enabled, done) ↦ rw done enabled
              | inr (x, failed) ↦ rw failed h
            ];
            rollback_stable = λ w h. on;
          },
          (
            record { apply_stable = λ w h. h; rollback_stable = λ w h. h },
            (record { apply_stable = λ w h. h; rollback_stable = λ w h. h }, tt),
          ),
        ),
      )
