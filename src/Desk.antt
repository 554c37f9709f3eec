-- ===== src/Desk.antt =====
-- crates/ra-desk/src/agent_runner.rs: the agent inside the desktop application. What the file system
-- and the port answer are arguments.
use remote_access.Base.{
  ◌≡◌, refl, Bool, true, false, Option, none, some, List, [], ◌∷◌, Text, lit, is_some, arith, not,
  ◌||◌, ◌⊎◌, inl, inr, Bool-cases, if◌then◌else◌,
}
use remote_access.Host.Config.{Config}
pub mod Window
pub mod Setup

pub data AgentState : Type 0 where
  not_configured stopped running running_elsewhere : AgentState
  failed : Text → AgentState

-- `lock` and `task` are whether the runner holds one.
pub record AgentRunner : Type 0 where
  pub lock : Bool
  pub task : Bool
  pub state : AgentState

abbrev pub new_runner : AgentRunner
new_runner = record { lock = false; task = false; state = stopped }

-- What `start` meets: the configuration, if it loads, and whether the port can be bound.
pub record Surroundings : Type 0 where
  pub config : Option Config
  pub can_bind : Bool

abbrev pub launch : Surroundings → AgentRunner → AgentRunner
launch w r = elim w.config [
  | none ↦ record r { state = not_configured }
  | some cfg ↦
      if is_some cfg.password_h1
      then (if w.can_bind
          then record { lock = true; task = true; state = running }
          else record r { state = running_elsewhere })
      else record r { state = failed (lit "no access password set") }
]

unfoldable pub start_agent : Surroundings → AgentRunner → AgentRunner
start_agent w r = if r.task then r else launch w r

unfoldable pub stop_agent : AgentRunner → AgentRunner
stop_agent r = record { lock = false; task = false; state = stopped }

unfoldable pub restart_agent : Surroundings → AgentRunner → AgentRunner
unfolding start_agent stop_agent
restart_agent w r = start_agent w (stop_agent r)

-- The writes of a task: its agent fails, and is restarted ten seconds later. They do not ask whether the
-- runner still holds the task: `abort` takes effect at the task's next await, so that a task that was
-- aborted may make one of them later.
unfoldable pub agent_fails : Text → AgentRunner → AgentRunner
agent_fails e r = record r { state = failed e }

unfoldable pub agent_restarts : AgentRunner → AgentRunner
agent_restarts r = record r { state = running }

-- What can happen to a runner
pub data RunnerEvent : Type 0 where
  starts restarts : Surroundings → RunnerEvent
  stops recovers : RunnerEvent
  fails : Text → RunnerEvent

unfoldable pub runner_step : RunnerEvent → AgentRunner → AgentRunner
unfolding start_agent stop_agent restart_agent agent_fails agent_restarts
runner_step (starts w) r = start_agent w r
runner_step (restarts w) r = restart_agent w r
runner_step stops r = stop_agent r
runner_step recovers r = agent_restarts r
runner_step (fails e) r = agent_fails e r

abbrev pub run_runner : List RunnerEvent → AgentRunner → AgentRunner
run_runner [] r = r
run_runner (e ∷ es) r = run_runner es (runner_step e r)

-- The port is held exactly as long as there is a task, and without one the agent is not shown as
-- running.
pub record IsConsistent (r : AgentRunner) : Type 0 where
  pub guarded : r.lock ≡ r.task
  pub honest : r.state ≡ running → r.task ≡ true

-- A new task is started, or things stay consistent.
pub start_agent-IsConsistent :
    (w : Surroundings) (r : AgentRunner) → IsConsistent r → IsConsistent (start_agent w r)
unfolding start_agent
start_agent-IsConsistent w r h = record {
  guarded = ground (arith, h.guarded);
  honest = ground (arith, h.honest);
}

pub stop_agent-IsConsistent : (r : AgentRunner) → IsConsistent (stop_agent r)
unfolding stop_agent
stop_agent-IsConsistent r = record { guarded = refl; honest = λ e. cc }

-- An agent was restarted by a task that the runner no longer held.
unfoldable pub restarts_late : List RunnerEvent → AgentRunner → Bool
unfolding runner_step
restarts_late [] r = false
restarts_late (recovers ∷ es) r = not r.task || restarts_late es (runner_step recovers r)
restarts_late (starts w ∷ es) r = restarts_late es (runner_step (starts w) r)
restarts_late (restarts w ∷ es) r = restarts_late es (runner_step (restarts w) r)
restarts_late (stops ∷ es) r = restarts_late es (runner_step stops r)
restarts_late (fails e ∷ es) r = restarts_late es (runner_step (fails e) r)

-- The port is held exactly as long as there is a task. Where the agent is shown as running without one,
-- a task that had been stopped has restarted it.
pub record IsTracked (es : List RunnerEvent) (r : AgentRunner) : Type 0 where
  pub guarded : (run_runner es r).lock ≡ (run_runner es r).task
  pub honest :
      (run_runner es r).state ≡ running
      → ((run_runner es r).task ≡ true) ⊎ (restarts_late es r ≡ true)

runner_step-guarded :
    (e : RunnerEvent) (r : AgentRunner)
    → r.lock ≡ r.task
    → (runner_step e r).lock ≡ (runner_step e r).task
unfolding runner_step start_agent stop_agent restart_agent agent_fails agent_restarts
runner_step-guarded (starts w) r h = ground (arith, h)
runner_step-guarded (restarts w) r h = ground arith
runner_step-guarded stops r h = refl
runner_step-guarded recovers r h = h
runner_step-guarded (fails e) r h = h

run_runner-guarded :
    (es : List RunnerEvent) (r : AgentRunner)
    → r.lock ≡ r.task
    → (run_runner es r).lock ≡ (run_runner es r).task
run_runner-guarded [] r h = h
run_runner-guarded (e ∷ es) r h = run_runner-guarded es _ (runner_step-guarded e r h)

IsHonest : AgentRunner → Type 0
IsHonest r = r.state ≡ running → r.task ≡ true

runner_step-IsHonest :
    (e : RunnerEvent) (es : List RunnerEvent) (r : AgentRunner)
    → IsHonest r
    → restarts_late (e ∷ es) r ≡ false
    → IsHonest (runner_step e r) × (restarts_late es (runner_step e r) ≡ false)
unfolding restarts_late IsHonest runner_step start_agent stop_agent restart_agent agent_fails
    agent_restarts
runner_step-IsHonest (starts w) es r h l = (ground (arith, h), l)
runner_step-IsHonest (restarts w) es r h l = (ground arith, l)
runner_step-IsHonest stops es r h l = (λ e. cc, l)
runner_step-IsHonest recovers es r h l = (ground arith, ground arith)
runner_step-IsHonest (fails e) es r h l = (λ q. cc, l)

run_runner-IsHonest :
    (es : List RunnerEvent) (r : AgentRunner)
    → IsHonest r
    → restarts_late es r ≡ false
    → IsHonest (run_runner es r)
run_runner-IsHonest [] r h l = h
run_runner-IsHonest (e ∷ es) r h l =
    let (h', l') = runner_step-IsHonest e es r h l in run_runner-IsHonest es _ h' l'

-- Whatever happens to a new runner, its task's writes at any time included, it holds the port exactly as
-- long as it has a task. It shows an agent as running only if it has a task, or if some task restarted
-- its agent after it had been stopped.
pub run_runner-IsTracked : (es : List RunnerEvent) → IsTracked es new_runner
unfolding IsHonest
run_runner-IsTracked es = record {
  guarded = run_runner-guarded es new_runner refl;
  honest = λ live. elim (Bool-cases (restarts_late es new_runner)) [
    | inl late ↦ inr late
    | inr timely ↦ inl (run_runner-IsHonest es new_runner (λ e. cc) timely live)
  ];
}
