-- ===== src/Desk/Window/Kept.antt =====
-- What the operations of crates/ra-desk/src/main.rs keep true of the desktop application.
use remote_access.Base.{
  either, maybe, whichever, ℕ, ◌≤◌, ◌≡◌, refl, ap, ◌∙◌, Bool, true, false, Bool-cases, inl, inr,
  ltb, Option, none, some, List, [], ◌∷◌, ◌++◌, Text, is_some, length, drop, length-append,
  length-drop, if◌then◌else◌, arith,
}
use remote_access.Proto.External.{Rng, Crypto}
use remote_access.Host.Config.{Config}
use remote_access.Client.Session.{normalize_id}
use remote_access.Desk.{
  AgentRunner, IsConsistent, start_agent-IsConsistent, stop_agent-IsConsistent, start_agent,
  stop_agent, restart_agent,
}
use remote_access.Client.Flows.{Prepared}
use remote_access.Desk.Window.{
  Desk, Outside, stream_ended, push_log, start_connect, start_stream, child_ends, disconnect,
  quit_remote_app, poll_host_online, polled_lately, apply_host_cfg, regenerate_password,
  set_custom_password, toggle_autostart, kill, is_live,
}

-- The log is bounded, a session is shown exactly as long as there is a stream, and the agent is
-- consistent.
pub record IsSound (d : Desk) : Type 0 where
  pub bounded : length d.log ≤ 200
  pub streams : is_some d.current ≡ is_some d.stream
  pub guarded : IsConsistent d.agent

at_most : (n : ℕ) → ltb 200 n ≡ false → n ≤ 200
at_most n e = ground arith

-- Of 200 lines and one more, 100 are dropped.
pub line_added :
    (lines : List Text) (s : Text)
    → length lines ≤ 200
    → length (
        if ltb 200 (length (lines ++ (s ∷ [])))
        then drop 100 (lines ++ (s ∷ []))
        else lines ++ (s ∷ []))
      ≤ 200
line_added lines s h =
    let more = lines ++ (s ∷ []) in
    elim (Bool-cases (ltb 200 (length more))) [
      | inl e ↦ rw e (omega (arith, length-drop 100 more, length-append lines (s ∷ [])))
      | inr e ↦ rw e (at_most (length more) e)
    ]

pub push_log-IsSound : (s : Text) (d : Desk) → IsSound d → IsSound (push_log s d)
unfolding push_log
push_log-IsSound s d h = record {
  bounded = line_added d.log s h.bounded;
  streams = h.streams;
  guarded = h.guarded;
}

pub start_connect-IsSound : (d : Desk) → IsSound d → IsSound (start_connect d)
unfolding start_connect
start_connect-IsSound d h =
    either IsSound (normalize_id d.remote_id) (λ e. push_log-IsSound _ d h)
      (λ id. record { bounded = omega arith; streams = h.streams; guarded = h.guarded })

pub start_stream-IsSound :
    (o : Outside) (p : Prepared) (d : Desk) → IsSound d → IsSound (start_stream o p d)
unfolding start_stream push_log
start_stream-IsSound o p d h =
    let logged = λ (s : Text). line_added d.log s h.bounded in
    either IsSound o.moonlight
      (λ e. record { bounded = logged _; streams = h.streams; guarded = h.guarded })
      (λ u.
        either IsSound o.spawns
          (λ e. record { bounded = logged _; streams = h.streams; guarded = h.guarded })
          (λ u'. record { bounded = logged _; streams = refl; guarded = h.guarded }))

child_at :
    (s : Text) (d : Desk) (o : Option Bool)
    → d.stream ≡ o
    → IsSound d
    → IsSound (elim o as (λ x. Desk) [
      | none ↦ d
      | some there ↦
          if there
          then record d { stream = some false; inbox = d.inbox ++ (stream_ended s ∷ []) }
          else d
    ])
child_at s d none e h = h
child_at s d (some there) e h =
    whichever IsSound there
      (record { bounded = h.bounded; streams = h.streams ∙ ap is_some e; guarded = h.guarded }) h

pub child_ends-IsSound : (s : Text) (d : Desk) → IsSound d → IsSound (child_ends s d)
unfolding child_ends
child_ends-IsSound s d h = child_at s d d.stream refl h

-- A kill leaves the log and the agent.
killed :
    (o : Option Bool) (d : Desk)
    → IsSound d
    → (length (kill o d).log ≤ 200) × IsConsistent (kill o d).agent
killed none d h = (h.bounded, h.guarded)
killed (some true) d h = (h.bounded, h.guarded)
killed (some false) d h = (h.bounded, h.guarded)

pub disconnect-IsSound : (d : Desk) → IsSound d → IsSound (disconnect d)
unfolding disconnect
disconnect-IsSound d h =
    let k = killed d.stream d h in
    push_log-IsSound _ _ (record { bounded = k.0; streams = refl; guarded = k.1 })

pub quit_remote_app-IsSound : (d : Desk) → IsSound d → IsSound (quit_remote_app d)
unfolding quit_remote_app
quit_remote_app-IsSound d h =
    maybe IsSound d.current h
      (λ p. record { bounded = h.bounded; streams = h.streams; guarded = h.guarded })

pub poll_host_online-IsSound : (now : ℕ) (d : Desk) → IsSound d → IsSound (poll_host_online now d)
unfolding poll_host_online
poll_host_online-IsSound now d h = whichever IsSound (polled_lately now d.last_host_poll) h (
    maybe IsSound d.host_cfg
      (record { bounded = h.bounded; streams = h.streams; guarded = h.guarded })
      (λ c.
        maybe IsSound c.id
          (record { bounded = h.bounded; streams = h.streams; guarded = h.guarded })
          (λ id. record { bounded = h.bounded; streams = h.streams; guarded = h.guarded })))

pub starts-IsConsistent :
    (o : Outside) (r : AgentRunner) → IsConsistent r → IsConsistent (start_agent o.runner r)
starts-IsConsistent o r h = start_agent-IsConsistent o.runner r h

pub stops-IsConsistent : (r : AgentRunner) → IsConsistent r → IsConsistent (stop_agent r)
stops-IsConsistent r h = stop_agent-IsConsistent r

pub restarts-IsConsistent :
    (o : Outside) (r : AgentRunner) → IsConsistent r → IsConsistent (restart_agent o.runner r)
unfolding restart_agent
restarts-IsConsistent o r h =
    start_agent-IsConsistent o.runner (stop_agent r) (stop_agent-IsConsistent r)

pub apply_host_cfg-IsSound :
    (o : Outside) (cfg : Config) (s : Text) (d : Desk)
    → IsSound d
    → IsSound (apply_host_cfg o cfg s d)
unfolding apply_host_cfg
apply_host_cfg-IsSound o cfg s d h =
    either IsSound o.saves (λ e. push_log-IsSound _ d h)
      (λ u. push_log-IsSound _ _ (
        whichever IsSound (is_live d.agent.state)
          (record {
            bounded = h.bounded;
            streams = h.streams;
            guarded = restarts-IsConsistent o d.agent h.guarded;
          })
          (record { bounded = h.bounded; streams = h.streams; guarded = h.guarded })))

pub toggle_autostart-IsSound :
    (o : Outside) (on : Bool) (d : Desk) → IsSound d → IsSound (toggle_autostart o on d)
unfolding toggle_autostart
toggle_autostart-IsSound o on d h =
    either IsSound o.installs (λ e. push_log-IsSound _ d h)
      (λ u.
        whichever IsSound on
          (push_log-IsSound _ _ (record {
            bounded = h.bounded;
            streams = h.streams;
            guarded = stops-IsConsistent d.agent h.guarded;
          }))
          (push_log-IsSound _ _ (record {
            bounded = h.bounded;
            streams = h.streams;
            guarded = starts-IsConsistent o d.agent h.guarded;
          })))

module _ (c : Crypto) where
  pub regenerate_password-IsSound :
      (o : Outside) (rng : Rng) (i : ℕ) (d : Desk)
      → IsSound d
      → IsSound (regenerate_password c o rng i d)
  unfolding regenerate_password
  regenerate_password-IsSound o rng i d h =
      maybe IsSound d.host_cfg h (λ cfg. apply_host_cfg-IsSound o _ _ d h)

  pub set_custom_password-IsSound :
      (o : Outside) (rng : Rng) (i : ℕ) (pw : Text) (display : Bool) (d : Desk)
      → IsSound d
      → IsSound (set_custom_password c o rng i pw display d)
  unfolding set_custom_password
  set_custom_password-IsSound o rng i pw display d h =
      maybe IsSound d.host_cfg h (λ cfg. apply_host_cfg-IsSound o _ _ d h)
