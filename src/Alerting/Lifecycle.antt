-- ===== src/Alerting/Lifecycle.antt =====
-- A rule over a history of observations of its condition.
use nodeagentx.Prelude.{
  ℕ, ◌≡◌, refl, Bool, true, false, ◌||◌, Option, none, some, List, [], ◌∷◌, any, if◌then◌else◌,
  arith, subst, ap, sym, ◌∙◌,
}
use nodeagentx.Prelude.Int.{ℤ}
use nodeagentx.Alerting.Rules.{
  State, ok, pending, firing, EvaluatedRule, condition_met, condition_met_in, has_waited, is_zero,
}

-- The observations (met, now) of a rule, newest first.
abbrev pub History : Type 0
History = List (Bool × ℕ)

-- The unbroken run of met observations at the end of a history: its first time, and the later ones.
abbrev pub extend : Bool → ℕ → Option (ℕ × List ℕ) → Option (ℕ × List ℕ)
extend false now o = none
extend true now none = some (now, [])
extend true now (some (first, later)) = some (first, now ∷ later)

unfoldable pub streak : History → Option (ℕ × List ℕ)
streak [] = none
streak ((met, now) ∷ older) = extend met now (streak older)

-- What a rule of duration `d` should be after such a run.
abbrev pub verdict : ℤ → Option (ℕ × List ℕ) → State
verdict d none = ok
verdict d (some (first, later)) =
    if is_zero d || any (λ t. has_waited t first d) later then firing else pending

module _ {F : Type 0} where
  unfoldable pub observe : EvaluatedRule F → History → EvaluatedRule F
  observe r [] = r
  observe r ((met, now) ∷ older) = condition_met met now (observe r older)

  abbrev KeepsStart : EvaluatedRule F → Option (ℕ × List ℕ) → Type 0
  KeepsStart r none = Unit
  KeepsStart r (some (first, later)) = r.state ≡ pending → r.triggered_at ≡ first

  abbrev Tracks : EvaluatedRule F → ℤ → Option (ℕ × List ℕ) → Type 0
  Tracks r d o = (r.duration ≡ d) × (r.state ≡ verdict d o) × KeepsStart r o

  condition_met_in-Tracks :
      (s : State) (met : Bool) (now : ℕ) (r : EvaluatedRule F) (o : Option (ℕ × List ℕ))
      → r.state ≡ s
      → s ≡ verdict r.duration o
      → KeepsStart r o
      → Tracks (condition_met_in s met now r) r.duration (extend met now o)
  unfolding condition_met_in
  condition_met_in-Tracks ok false now r o e v k = (refl, e, tt)
  condition_met_in-Tracks pending false now r o e v k = (refl, refl, tt)
  condition_met_in-Tracks firing false now r o e v k = (refl, refl, tt)
  condition_met_in-Tracks ok true now r none e v k = ground arith
  condition_met_in-Tracks pending true now r none e v k = cc v
  condition_met_in-Tracks firing true now r none e v k = cc v
  condition_met_in-Tracks ok true now r (some (first, later)) e v k = ground arith
  condition_met_in-Tracks pending true now r (some (first, later)) e v k = ground (arith, k e)
  condition_met_in-Tracks firing true now r (some (first, later)) e v k = ground arith

  condition_met-Tracks :
      (met : Bool) (now : ℕ) (r : EvaluatedRule F) (d : ℤ) (o : Option (ℕ × List ℕ))
      → Tracks r d o
      → Tracks (condition_met met now r) d (extend met now o)
  unfolding condition_met
  condition_met-Tracks met now r d o (hd, hs, hk) =
      subst (λ d. Tracks (condition_met_in r.state met now r) d (extend met now o)) hd
        (condition_met_in-Tracks r.state met now r o refl (hs ∙ ap (λ d. verdict d o) (sym hd)) hk)

  observe-Tracks :
      (r : EvaluatedRule F) (h : History)
      → r.state ≡ ok
      → Tracks (observe r h) r.duration (streak h)
  unfolding observe streak
  observe-Tracks r [] e = (refl, e, tt)
  observe-Tracks r ((met, now) ∷ older) e =
      condition_met-Tracks met now (observe r older) r.duration (streak older)
        (observe-Tracks r older e)

  -- After any observations of its condition, a rule that began as ok is ok when the last one was not
  -- met. Otherwise it fires exactly when its duration is zero, or when at some later observation of
  -- the unbroken run of met ones the duration had passed since the first of them; else it is pending.
  pub state-observe :
      (r : EvaluatedRule F) (h : History)
      → r.state ≡ ok
      → (observe r h).state ≡ verdict r.duration (streak h)
  state-observe r h e = (observe-Tracks r h e).1
