-- ===== src/Collector/Scheduler/Runs.antt =====
-- Runs of the scheduler: when its channel is written, and when it is closed.
use nodeagentx.Prelude.{
  ℕ, String, Bool, true, false, Option, none, some, List, [], ◌∷◌, ◌++◌, All, any, ◌≡◌, refl, ap,
  set, get_elem?, Bool-cases, zero, suc, ◌<◌, ltb, subst, sym, arith, Option-cases, inl, inr,
}
use mathlib.Core.Option.{some-injective}
use nodeagentx.Prelude.Maps.{Map}
use nodeagentx.Collector.Metric.{Metric}
use nodeagentx.Collector.Buffer.Batches.{Addition}
use nodeagentx.Collector.Registry.{Plugins, Registry}
use nodeagentx.Collector.Scheduler.{
  Worker, runs_input, pushes, ScheduledInput, Scheduler, Closer, absent, waiting, released,
  finished, release, is_closed, close_once, closer_for, write_out, workers_for, new_scheduler,
  start, ticks, takes_mutex, begin_if, begin_collection, end_collection, nobody_collects,
  send_batch, pass_on, after_gather, gather_once, push_aggregators, cancel_and_wait, stop,
  close_channel,
}
use nodeagentx.Collector.Scheduler.Reloads.{end_workers-IsSame}
use nodeagentx.Collector.Scheduler.Events.{
  Event, begins, gathers, pushes_all, stops, closes, reloads, Fate, goes_on, and_run, or_panics,
  is_worker, run_input, stop_when_idle, happen, scheduler_run,
}

module _ {F : Type 0} (P : Plugins F) (r : Registry P.Input P.Processor P.Aggregator P.Output) where
  -- Once the workers have been waited for, there are none.
  abbrev pub IsQuiet : Closer → List Worker → Type 0
  IsQuiet absent workers = Unit
  IsQuiet waiting workers = Unit
  IsQuiet released workers = workers ≡ []
  IsQuiet finished workers = workers ≡ []

  abbrev pub IsPlain : Event → Type 0
  IsPlain (reloads cfg) = ⊥
  IsPlain _ = Unit

  -- A ticker of the input's interval can be made.
  abbrev pub IsTicking : ScheduledInput P.Input → Type 0
  IsTicking si = 0 < si.interval

  abbrev pub Quiet : Scheduler P → Type 0
  Quiet s = IsQuiet s.closer s.workers × All IsTicking s.inputs

  get_elem?-IsTicking :
      (inputs : List (ScheduledInput P.Input)) (i : ℕ) (si : ScheduledInput P.Input)
      → All IsTicking inputs
      → get_elem? inputs i ≡ some si
      → IsTicking si
  get_elem?-IsTicking [] i si h at = cc at
  get_elem?-IsTicking (x ∷ xs) zero si (h, hs) at = subst IsTicking (some-injective _ _ at) h
  get_elem?-IsTicking (x ∷ xs) (suc i) si (h, hs) at = get_elem?-IsTicking xs i si hs at

  set-IsTicking :
      (inputs : List (ScheduledInput P.Input)) (i : ℕ) (si : ScheduledInput P.Input)
      → All IsTicking inputs
      → IsTicking si
      → All IsTicking (set inputs i si)
  set-IsTicking [] i si h t = tt
  set-IsTicking (x ∷ xs) zero si (h, hs) t = (t, hs)
  set-IsTicking (x ∷ xs) (suc i) si (h, hs) t = (h, set-IsTicking xs i si hs t)

  ticks-true : (i : ℕ) (s : Scheduler P) → All IsTicking s.inputs → ticks P i s ≡ true
  unfolding ticks
  ticks-true i s h = elim (Option-cases (get_elem? s.inputs i)) [
    | inl beyond ↦ rw (beyond, ticks) refl
    | inr (si, at) ↦
        let t = get_elem?-IsTicking s.inputs i si h at in
        let test : ltb 0 si.interval ≡ true = ground (arith, t) in rw (at, ticks) test
  ]

  not_closed :
      (c : Closer) (ws : List Worker) (f : Worker → Bool)
      → IsQuiet c ws
      → any f ws ≡ true
      → is_closed c ≡ false
  not_closed absent ws f q h = refl
  not_closed waiting ws f q h = refl
  not_closed released ws f q h = refl
  not_closed finished ws f q h = cc (ap (any f) q, h)

  release-IsQuiet : (c : Closer) → IsQuiet (release c) []
  release-IsQuiet absent = tt
  release-IsQuiet waiting = refl
  release-IsQuiet released = refl
  release-IsQuiet finished = refl

  close_once-IsQuiet : (c : Closer) (ws : List Worker) → IsQuiet c ws → IsQuiet (close_once c) ws
  close_once-IsQuiet absent ws q = q
  close_once-IsQuiet waiting ws q = q
  close_once-IsQuiet released ws q = q
  close_once-IsQuiet finished ws q = q

  write_out-Quiet : (ms : List (Metric F)) (s : Scheduler P) → Quiet s → Quiet (write_out P ms s)
  write_out-Quiet [] s q = q
  write_out-Quiet (m ∷ ms) s q = q

  send_batch-Quiet :
      (leaves : Bool) (ms : List (Metric F)) (s : Scheduler P)
      → is_closed s.closer ≡ false
      → Quiet s
      → (s' : Scheduler P) × (send_batch P leaves ms s ≡ some s') × Quiet s'
  unfolding send_batch
  send_batch-Quiet true ms s h q = (s, refl, q)
  send_batch-Quiet false ms s h q = (record s { sent = s.sent ++ ms ∷ [] }, rw h refl, q)

  pass_on-Quiet :
      (tags : Map String) (now : ℕ) (leaves : Bool) (ms : List (Metric F)) (s : Scheduler P)
      → is_closed s.closer ≡ false
      → Quiet s
      → (s' : Scheduler P) × (pass_on P tags now leaves ms s ≡ some s') × Quiet s'
  unfolding pass_on
  pass_on-Quiet tags now leaves [] s h q = (s, refl, q)
  pass_on-Quiet tags now leaves (m ∷ ms) s h q = send_batch-Quiet leaves _ _ h q

  after_gather-Quiet :
      (i now : ℕ) (leaves : Bool) (si : ScheduledInput P.Input)
      (out : P.Input × List (Addition F) × Option String) (s : Scheduler P)
      → IsTicking si
      → is_closed s.closer ≡ false
      → Quiet s
      → (s' : Scheduler P) × (after_gather P i now leaves si out s ≡ some s') × Quiet s'
  unfolding after_gather
  after_gather-Quiet i now leaves si (input, additions, some e) s t h (q, ts) =
      (_, refl, (q, set-IsTicking s.inputs i (record si { input = input }) ts t))
  after_gather-Quiet i now leaves si (input, additions, none) s t h (q, ts) =
      pass_on-Quiet si.tags now leaves _
        (record s { inputs = set s.inputs i (record si { input = input }) }) h
        (q, set-IsTicking s.inputs i (record si { input = input }) ts t)

  gather_once-Quiet :
      (i now : ℕ) (leaves : Bool) (s : Scheduler P)
      → is_closed s.closer ≡ false
      → Quiet s
      → (s' : Scheduler P) × (gather_once P i now leaves s ≡ some s') × Quiet s'
  unfolding gather_once
  gather_once-Quiet i now leaves s h q = elim (Option-cases (get_elem? s.inputs i)) [
    | inl none_there ↦ (s, rw (none_there, gather_once) refl, q)
    | inr (si, at) ↦
        let (s', out, quiet) =
          after_gather-Quiet i now leaves si (P.gather si.input) s
            (get_elem?-IsTicking s.inputs i si q.1 at) h q in
        (s', rw (at, gather_once) out, quiet)
  ]

  begin_if-Quiet : (b : Bool) (i : ℕ) (s : Scheduler P) → Quiet s → Quiet (begin_if P b i s)
  unfolding begin_if
  begin_if-Quiet true i s q = q
  begin_if-Quiet false i s q = q

  begin_collection-Quiet : (i : ℕ) (s : Scheduler P) → Quiet s → Quiet (begin_collection P i s)
  unfolding begin_collection
  begin_collection-Quiet i s q = elim (Option-cases (get_elem? s.inputs i)) [
    | inl beyond ↦ rw (beyond, begin_collection) q
    | inr (si, at) ↦
        rw (at, begin_collection) (begin_if-Quiet (takes_mutex P (P.gather si.input)) i s q)
  ]

  -- A step of the goroutine of an input that is quiet while the channel is open.
  run_input-Quiet :
      (i : ℕ) (step : Fate (Scheduler P)) (s : Scheduler P)
      → Quiet s
      → (is_closed s.closer ≡ false → (s' : Scheduler P) × (step ≡ goes_on s') × Quiet s')
      → (s' : Scheduler P) × (run_input P r i step s ≡ goes_on s') × Quiet s'
  unfolding run_input
  run_input-Quiet i step s q goes = elim (Bool-cases (any (is_worker (runs_input i)) s.workers)) [
    | inr gone ↦ (s, rw gone refl, q)
    | inl there ↦
        let (s', out, quiet) =
          goes (not_closed s.closer s.workers (is_worker (runs_input i)) q.0 there) in
        (s', rw (there, ticks-true i s q.1) out, quiet)
  ]

  stop_when_idle-Quiet :
      (idle : Bool) (s : Scheduler P) → Quiet s → Quiet (stop_when_idle P r idle s)
  unfolding stop_when_idle stop cancel_and_wait
  stop_when_idle-Quiet true s q = (
    release-IsQuiet _,
    subst (All IsTicking) (sym (end_workers-IsSame P r s.workers (record s { running = false })).0)
        q.1,
  )
  stop_when_idle-Quiet false s q = q

  happen-Quiet :
      (e : Event) (s : Scheduler P)
      → IsPlain e
      → Quiet s
      → (s' : Scheduler P) × (happen P r e s ≡ goes_on s') × Quiet s'
  unfolding happen push_aggregators close_channel end_collection or_panics
  happen-Quiet (begins i) s p q =
      run_input-Quiet i (goes_on (begin_collection P i s)) s q
        (λ h. (begin_collection P i s, refl, begin_collection-Quiet i s q))
  happen-Quiet (gathers i now leaves) s p q =
      run_input-Quiet i (or_panics (gather_once P i now leaves (end_collection P i s))) s q (λ h.
        let (s', out, quiet) = gather_once-Quiet i now leaves (end_collection P i s) h q in
        (s', ap or_panics out, quiet))
  happen-Quiet pushes_all s p q = elim (Bool-cases (any (is_worker pushes) s.workers)) [
    | inr gone ↦ (s, rw gone refl, q)
    | inl there ↦ (push_aggregators P s, rw there refl, write_out-Quiet _ _ q)
  ]
  happen-Quiet stops s p q = (_, refl, stop_when_idle-Quiet (nobody_collects s.collecting) s q)
  happen-Quiet closes s p q = (_, refl, (close_once-IsQuiet s.closer s.workers q.0, q.1))
  happen-Quiet (reloads cfg) s p q = elim p [ ]

  scheduler_run-Quiet :
      (es : List Event) (s : Scheduler P)
      → All IsPlain es
      → Quiet s
      → (s' : Scheduler P) × (scheduler_run P r es s ≡ goes_on s') × Quiet s'
  unfolding scheduler_run and_run
  scheduler_run-Quiet [] s p q = (s, refl, q)
  scheduler_run-Quiet (e ∷ es) s (p, ps) q =
      let (s1, first, q1) = happen-Quiet e s p q in
      let (s2, later, q2) = scheduler_run-Quiet es s1 ps q1 in (s2, rw first later, q2)

  closer_for-IsQuiet : (ws : List Worker) → IsQuiet (closer_for ws) ws
  closer_for-IsQuiet [] = refl
  closer_for-IsQuiet (w ∷ ws) = tt

  start-Quiet : (s : Scheduler P) → All IsTicking s.inputs → Quiet (start P s)
  unfolding start
  start-Quiet s ts = (closer_for-IsQuiet (workers_for s.inputs s.aggregators), ts)

  closed-Quiet : (c : Closer) (ws : List Worker) → IsQuiet c ws → is_closed c ≡ true → ws ≡ []
  closed-Quiet absent ws q h = cc h
  closed-Quiet waiting ws q h = cc h
  closed-Quiet released ws q h = q
  closed-Quiet finished ws q h = q

  -- A scheduler whose inputs have positive intervals, which was started and is not reloaded, never
  -- panics or hangs, whatever its goroutines do and in which order, also after Stop and after the
  -- channel was closed; and once the channel has been closed no goroutine is left.
  pub scheduler_run-start :
      (es : List Event) (inputs : List (ScheduledInput P.Input)) (processors : List P.Processor)
      (aggregators : List P.Aggregator) (outputs : List P.Output)
      → All IsTicking inputs
      → All IsPlain es
      → (s : Scheduler P) × (scheduler_run P r es
            (start P (new_scheduler P inputs processors aggregators outputs))
          ≡ goes_on s)
        × (is_closed s.closer ≡ true → s.workers ≡ [])
  unfolding new_scheduler
  scheduler_run-start es inputs processors aggregators outputs ts ps =
      let (s, out, quiet) =
        scheduler_run-Quiet es (start P (new_scheduler P inputs processors aggregators outputs)) ps
          (start-Quiet (new_scheduler P inputs processors aggregators outputs) ts) in
      (s, out, closed-Quiet s.closer s.workers quiet.0)
