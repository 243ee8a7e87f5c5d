-- ===== src/Collector/Scheduler/Panics.antt =====
-- A reload and the goroutine that closes the channel.
use nodeagentx.Prelude.{
  ℕ, String, true, none, some, List, [], ◌∷◌, map, any, ◌≡◌, refl, ap, ◌∙◌, get_elem?, take,
  if◌then◌else◌, false, Bool-cases, inl, inr,
}
use nodeagentx.Prelude.Maps.{Map}
use nodeagentx.Collector.Metric.{Metric}
use nodeagentx.Collector.Buffer.Batches.{Addition, made}
use nodeagentx.Collector.Registry.{Plugins, Registry}
use nodeagentx.Collector.Scheduler.{
  runs_input, ScheduledInput, Scheduler, waiting, released, release, is_closed, close_once,
  input_workers, workers_for, send_batch, pass_on, gather_once, close_channel, ticks,
  end_collection, nobody_collects,
}
use nodeagentx.Collector.Scheduler.Rebuild.{
  ReloadConfig, done, Pipeline, build_pipeline, schedule_all, tear_down, replace_pipeline,
  settle_reload, reload, call_reload,
}
use nodeagentx.Collector.Scheduler.Gather.{gather_once-pass_on}
use nodeagentx.Collector.Scheduler.Events.{
  gathers, closes, reloads, goes_on, panics, and_run, or_panics, or_hangs, is_worker, run_input,
  happen, scheduler_run,
}
use nodeagentx.Collector.Scheduler.Reloads.{tear_down-IsSame}

any-workers_for :
    {I A : Type 0} (si : ScheduledInput I) (rest : List (ScheduledInput I)) (aggregators : List A)
    → any (is_worker (runs_input 0)) (workers_for (si ∷ rest) aggregators) ≡ true
unfolding workers_for input_workers
any-workers_for si rest [] = refl
any-workers_for si rest (a ∷ aggregators) = refl

module _ {F : Type 0} (P : Plugins F) (r : Registry P.Input P.Processor P.Aggregator P.Output) where
  pass_on-closed :
      (tags : Map String) (now : ℕ) (m : Metric F) (ms : List (Metric F)) (s : Scheduler P)
      → is_closed s.closer ≡ true
      → pass_on P tags now false (m ∷ ms) s ≡ none
  unfolding pass_on send_batch
  pass_on-closed tags now m ms s h = rw h refl

  gather_once-closed :
      (i now : ℕ) (s : Scheduler P) (si : ScheduledInput P.Input) (x : Addition F)
      (xs : List (Addition F)) (input : P.Input)
      → is_closed s.closer ≡ true
      → get_elem? s.inputs i ≡ some si
      → P.gather si.input ≡ (input, x ∷ xs, none)
      → gather_once P i now false s ≡ none
  gather_once-closed i now s si x xs input h at gathered =
      gather_once-pass_on P i now false s si (x ∷ xs) input at gathered
      ∙ pass_on-closed si.tags now (made x) (take 999 (map made xs)) _ h

  reload-done :
      (cfg : ReloadConfig) (s : Scheduler P) (new : Pipeline P)
      → build_pipeline P r cfg ≡ done new
      → (reload P r cfg s).0 ≡ replace_pipeline P r new (tear_down P r s)
  unfolding reload settle_reload
  reload-done cfg s new h = rw (h, settle_reload) refl

  -- A goroutine whose collection panics panics, if not already for its ticker.
  happen-gathers :
      (i now : ℕ) (s : Scheduler P)
      → any (is_worker (runs_input i)) s.workers ≡ true
      → gather_once P i now false (end_collection P i s) ≡ none
      → happen P r (gathers i now false) s ≡ panics
  unfolding happen run_input
  happen-gathers i now s h bad = elim (Bool-cases (ticks P i s)) [
    | inl on ↦ rw (h, on) (ap or_panics bad)
    | inr off ↦ rw (h, off) refl
  ]

  -- The first new input's goroutine runs on the channel that has been closed.
  happen-closed :
      (now : ℕ) (t : Scheduler P) (x : Addition F) (xs : List (Addition F)) (first input : P.Input)
      (rest : List P.Input) (new : Pipeline P)
      → t.closer ≡ released
      → t.running ≡ true
      → new.inputs ≡ first ∷ rest
      → P.gather first ≡ (input, x ∷ xs, none)
      → happen P r (gathers 0 now false) (close_channel P (replace_pipeline P r new t)) ≡ panics
  unfolding close_channel replace_pipeline end_collection
  happen-closed now t x xs first input rest new c running inputs gathered =
      let u = close_channel P (replace_pipeline P r new t) in
      let scheduled = schedule_all P r t.interval in
      let there : any (is_worker (runs_input 0)) u.workers ≡ true =
        ap
          (λ b.
            any (is_worker (runs_input 0))
              (if b then workers_for (scheduled new.inputs) new.aggregators else t.workers))
          running
        ∙ ap (λ k. any (is_worker (runs_input 0)) (workers_for (scheduled k) new.aggregators))
            inputs
        ∙ any-workers_for _ (scheduled rest) new.aggregators in
      happen-gathers 0 now u there (
        gather_once-closed 0 now (end_collection P 0 u)
          (record { input = first; interval = t.interval; tags = [] }) x xs input
          (ap (λ k. is_closed (close_once k)) c) (ap (λ k. get_elem? (scheduled k) 0) inputs)
          gathered)

  happen-reloads :
      (cfg : ReloadConfig) (s : Scheduler P) (new : Pipeline P)
      → s.collecting ≡ []
      → build_pipeline P r cfg ≡ done new
      → happen P r (reloads cfg) s ≡ goes_on (replace_pipeline P r new (tear_down P r s))
  unfolding happen call_reload or_hangs
  happen-reloads cfg s new idle built =
      ap (λ c. or_hangs (if nobody_collects c then some (reload P r cfg s) else none)) idle
      ∙ ap goes_on (reload-done cfg s new built)

  -- After a scheduler that runs, with no collection before the mutex, was reloaded with success, and
  -- the goroutine that Start made has closed the channel, the first new input's collection of any
  -- metrics panics, whose context is not done: its ticker does for an interval of 0 or less, which no
  -- scheduler from NewScheduler has, and otherwise it is a send on a closed channel.
  pub scheduler_run-reloads :
      (cfg : ReloadConfig) (now : ℕ) (s : Scheduler P) (new : Pipeline P) (first : P.Input)
      (rest : List P.Input) (x : Addition F) (xs : List (Addition F)) (input : P.Input)
      → s.closer ≡ waiting
      → s.running ≡ true
      → s.collecting ≡ []
      → build_pipeline P r cfg ≡ done new
      → new.inputs ≡ first ∷ rest
      → P.gather first ≡ (input, x ∷ xs, none)
      → scheduler_run P r (reloads cfg ∷ closes ∷ gathers 0 now false ∷ []) s ≡ panics
  unfolding scheduler_run and_run happen
  scheduler_run-reloads cfg now s new first rest x xs input c running idle built inputs gathered =
      let (_, runs, closer, _) = tear_down-IsSame P r s in
      ap (λ o. and_run o (scheduler_run P r (closes ∷ gathers 0 now false ∷ [])))
        (happen-reloads cfg s new idle built)
      ∙ ap (λ o. and_run o (λ k. goes_on k))
          (happen-closed now (tear_down P r s) x xs first input rest new (closer ∙ ap release c)
            (runs ∙ running) inputs gathered)
