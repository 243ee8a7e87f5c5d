-- ===== src/Collector/Scheduler/Events.antt =====
-- What happens to a scheduler, step by step, and what becomes of the program.
use nodeagentx.Prelude.{
  ℕ, Bool, true, false, Option, none, some, List, [], ◌∷◌, any, ◌==◌, if◌then◌else◌,
}
use nodeagentx.Collector.Registry.{Plugins, Registry}
use nodeagentx.Collector.Scheduler.{
  Worker, runs_input, pushes, Scheduler, ticks, begin_collection, end_collection, nobody_collects,
  gather_once, push_aggregators, stop, close_channel,
}
use nodeagentx.Collector.Scheduler.Rebuild.{ReloadConfig, call_reload}

-- One thing that happens: a goroutine of an input begins a collection, or makes a whole one (or ends
-- the one it has begun), the pushing one pushes, Stop or Reload is called, or the goroutine that closes
-- the channel goes on.
pub data Event : Type 0 where
  begins : ℕ → Event
  gathers : ℕ → ℕ → Bool → Event
  pushes_all stops closes : Event
  reloads : ReloadConfig → Event

-- The program goes on, panics, or hangs in a Reload that never returns.
pub data Fate (S : Type 0) : Type 0 where
  goes_on : S → Fate S
  panics hangs : Fate S

unfoldable pub and_run : {S : Type 0} → Fate S → (S → Fate S) → Fate S
and_run (goes_on s) next = next s
and_run panics next = panics
and_run hangs next = hangs

unfoldable pub or_panics : {S : Type 0} → Option S → Fate S
or_panics none = panics
or_panics (some s) = goes_on s

unfoldable pub or_hangs : {S E : Type 0} → Option (S × E) → Fate S
or_hangs none = hangs
or_hangs (some (s, e)) = goes_on s

abbrev pub is_worker : Worker → Worker → Bool
is_worker (runs_input i) (runs_input j) = i == j
is_worker pushes pushes = true
is_worker (runs_input i) pushes = false
is_worker pushes (runs_input j) = false

module _ {F : Type 0} (P : Plugins F) (r : Registry P.Input P.Processor P.Aggregator P.Output) where
  -- Only a goroutine that runs can do something, and its first step makes the ticker.
  unfoldable pub run_input : ℕ → Fate (Scheduler P) → Scheduler P → Fate (Scheduler P)
  unfolding ticks
  run_input i step s =
      if any (is_worker (runs_input i)) s.workers
      then if ticks P i s then step else panics
      else goes_on s

  -- Stop cancels, and waits for the collections before the goroutines end.
  unfoldable pub stop_when_idle : Bool → Scheduler P → Scheduler P
  unfolding stop
  stop_when_idle true s = stop P s
  stop_when_idle false s = record s { running = false }

  unfoldable pub happen : Event → Scheduler P → Fate (Scheduler P)
  unfolding run_input begin_collection end_collection gather_once push_aggregators stop_when_idle
      close_channel call_reload or_panics or_hangs
  happen (begins i) s = run_input i (goes_on (begin_collection P i s)) s
  happen (gathers i now leaves) s =
      run_input i (or_panics (gather_once P i now leaves (end_collection P i s))) s
  happen pushes_all s =
      goes_on (if any (is_worker pushes) s.workers then push_aggregators P s else s)
  happen stops s = goes_on (stop_when_idle (nobody_collects s.collecting) s)
  happen closes s = goes_on (close_channel P s)
  happen (reloads cfg) s = or_hangs (call_reload P r cfg s)

  unfoldable pub scheduler_run : List Event → Scheduler P → Fate (Scheduler P)
  unfolding happen and_run
  scheduler_run [] s = goes_on s
  scheduler_run (e ∷ es) s = and_run (happen e s) (scheduler_run es)
