-- ===== src/Rendezvous/RateLimit.antt =====
-- The limit on challenges per host of crates/ra-rendezvous/src/lib.rs, over any history.
use remote_access.Base.{
  ℕ, ◌+◌, ◌-◌, ltb, ◌≤◌, ◌<◌, ◌≡◌, refl, sym, ap, ◌∙◌, List, [], ◌∷◌, ◌++◌, append-nil,
  append_assoc, Text, arith, leb, text_eq, text_eq_sound, text_eq_refl, subst, if◌then◌else◌,
  length, length-append, filter_by, All, All-append, get, Bool-cases, inl, inr,
}
use remote_access.Proto.External.{Crypto, Rng}
use remote_access.Rendezvous.State.{
  HostRuntime, Store, empty_store, gc, from_secs, challenges_per_minute,
}
use remote_access.Rendezvous.Pairing.{drop_old, issue_challenge}
use remote_access.Rendezvous.Runtime.{
  register-runtime, heartbeat-runtime, post-runtime, poll-times, issue_self, issue_other,
  submit-times, Issuing, kept, dropped, added,
}
use remote_access.Rendezvous.System.{
  Event, registers, beats, polls, posts, collects, issues, submits, exec, run, times_of, issued,
  issued_all, accepted_time,
}

-- The clock readings of the `challenge` calls do not go back.
abbrev pub IsOrdered : ℕ → List Event → Type 0
IsOrdered last [] = Unit
IsOrdered last (issues rng now j ∷ es) = (last ≤ now) × IsOrdered now es
IsOrdered last (e ∷ es) = IsOrdered last es

-- The clock of the last `challenge` call.
abbrev pub last_issue : ℕ → List Event → ℕ
last_issue last [] = last
last_issue last (issues rng now j ∷ es) = last_issue now es
last_issue last (e ∷ es) = last_issue last es

-- Of these times, those at most a minute before `now`.
abbrev pub within_minute : ℕ → List ℕ → List ℕ
within_minute now = filter_by (λ t. leb now (t + from_secs 60))

abbrev IsOld : ℕ → ℕ → Type 0
IsOld now t = t + from_secs 60 < now

-- The recorded times are the end of the log; what came before is more than a minute old.
record Window (last : ℕ) (times log : List ℕ) : Type 0 where
  old : List ℕ
  split : log ≡ old ++ times
  aged : All (IsOld last) old
  short : length times ≤ challenges_per_minute

aged_later : {a b : ℕ} (ts : List ℕ) → a ≤ b → All (IsOld a) ts → All (IsOld b) ts
aged_later [] h o = tt
aged_later (t ∷ ts) h o = (omega arith, aged_later ts h o.1)

record Dropping (now : ℕ) (ts : List ℕ) : Type 0 where
  gone : List ℕ
  split : ts ≡ gone ++ drop_old now ts
  aged : All (IsOld now) gone
  shorter : length (drop_old now ts) ≤ length ts

drop_old-Dropping : (now : ℕ) (ts : List ℕ) → Dropping now ts
unfolding drop_old
drop_old-Dropping now [] = record { gone = []; split = refl; aged = tt; shorter = omega arith }
drop_old-Dropping now (t ∷ ts) = elim (Bool-cases (ltb (from_secs 60) (now - t))) [
  | inl old ↦
      let d = drop_old-Dropping now ts in
      record {
        gone = t ∷ d.gone;
        split = rw old (ap (λ l. t ∷ l) d.split);
        aged = (ground arith, d.aged);
        shorter = rw old (omega (arith, d.shorter));
      }
  | inr recent ↦ record {
    gone = [];
    split = rw recent;
    aged = tt;
    shorter = rw recent (omega arith);
  }
]

Window-same : {last : ℕ} {a b log : List ℕ} → a ≡ b → Window last a log → Window last b log
Window-same {last} {log = log} e w = subst (λ (ts : List ℕ). Window last ts log) e w

Window-runtime :
    {last : ℕ} {a b : HostRuntime} {log : List ℕ}
    → b ≡ a
    → Window last a.challenge_times log
    → Window last b.challenge_times log
Window-runtime e w = Window-same (sym (ap (λ (r : HostRuntime). r.challenge_times) e)) w

Window-later : {a b : ℕ} {times log : List ℕ} → a ≤ b → Window a times log → Window b times log
Window-later h w = record {
  old = w.old;
  split = w.split;
  aged = aged_later w.old h w.aged;
  short = w.short;
}

-- The window after the old times are dropped at a later clock.
Window-drop :
    {last : ℕ} {times log : List ℕ} (now : ℕ)
    → last ≤ now
    → Window last times log
    → Window now (drop_old now times) log
Window-drop {times = times} {log = log} now h w =
    let d = drop_old-Dropping now times in
    record {
      old = w.old ++ d.gone;
      split = w.split ∙ ap (◌++◌ w.old) d.split ∙ sym (append_assoc w.old d.gone _);
      aged = All-append (IsOld now) w.old d.gone (aged_later w.old h w.aged) d.aged;
      short = omega (arith, d.shorter, w.short);
    }

Window-issue :
    {now : ℕ} {before after new log : List ℕ} (last : ℕ)
    → last ≤ now
    → Issuing now before after new
    → Window last before log
    → Window now after (log ++ new)
Window-issue {before = before} {log = log} last h (kept same none_new) w =
    rw (same, none_new, append-nil log) (Window-later h w)
Window-issue {now} {before = before} {log = log} last h (dropped same none_new) w =
    rw (same, none_new, append-nil log) (Window-drop now h w)
Window-issue {now} {before = before} {log = log} last h (added same new room) w =
    let d = Window-drop now h w in
    rw (same, new)
      (record {
        old = d.old;
        split = ap (λ l. l ++ now ∷ []) d.split ∙ append_assoc d.old _ _;
        aged = d.aged;
        short = omega (arith, length-append (drop_old now before) (now ∷ []));
      })

module _ (c : Crypto) (id : Text) where
  Window-issues :
      (last now : ℕ) (rng : Rng) (j : Text) (s : Store) (log : List ℕ)
      → last ≤ now
      → Window last (times_of id s) log
      → Window now
          (times_of id (exec c (issues rng now j) s))
          (log ++ issued c id (issues rng now j) s)
  unfolding exec issued
  Window-issues last now rng j s log h w = elim (Bool-cases (text_eq j id)) [
    | inl same ↦
        subst
          (λ k. Window now (times_of id (issue_challenge c rng now k s).1) (
            log
            ++ (if text_eq k id then accepted_time now (issue_challenge c rng now k s).0 else [])))
          (sym (text_eq_sound j id same))
          (rw (text_eq_refl id) (Window-issue last h (issue_self c id rng now s) w))
    | inr other ↦
        rw (other, append-nil log)
          (Window-same (sym (issue_other c id rng now j s other)) (Window-later h w))
  ]

  run-Window :
      (last : ℕ) (es : List Event) (s : Store) (log : List ℕ)
      → IsOrdered last es
      → Window last (times_of id s) log
      → Window (last_issue last es) (times_of id (run c es s)) (log ++ issued_all c id es s)
  unfolding run issued_all issued exec gc
  run-Window last [] s log o w = rw (append-nil log) w
  run-Window last (registers fuel rng now unix headers peer req ∷ es) s log o w =
      run-Window last es (exec c (registers fuel rng now unix headers peer req) s) log o
        (Window-runtime (register-runtime c id fuel rng now unix headers peer req s) w)
  run-Window last (beats now unix headers peer body j ∷ es) s log o w =
      run-Window last es (exec c (beats now unix headers peer body j) s) log o
        (Window-runtime (heartbeat-runtime c id now unix headers peer body j s) w)
  run-Window last (polls deadline now unix later headers j ∷ es) s log o w =
      run-Window last es (exec c (polls deadline now unix later headers j) s) log o
        (Window-same (sym (poll-times c id deadline now unix later headers j s)) w)
  run-Window last (posts headers j res ∷ es) s log o w =
      run-Window last es (exec c (posts headers j res) s) log o
        (Window-runtime (post-runtime c id headers j res s) w)
  run-Window last (collects now ∷ es) s log o w =
      run-Window last es (exec c (collects now) s) log o w
  run-Window last (issues rng now j ∷ es) s log o w =
      rw (← append_assoc log (issued c id (issues rng now j) s) _) (
        run-Window now es (exec c (issues rng now j) s) (log ++ issued c id (issues rng now j) s)
          o.1 (Window-issues last now rng j s log o.0 w))
  run-Window last (submits now_ttl now_seen now j req ∷ es) s log o w =
      run-Window last es (exec c (submits now_ttl now_seen now j req) s) log o
        (Window-same (sym (submit-times c id now_ttl now_seen now j req s)) w)

  filter_old : (now : ℕ) (ts : List ℕ) → All (IsOld now) ts → within_minute now ts ≡ []
  filter_old now [] o = refl
  filter_old now (t ∷ ts) o = ground (arith, filter_old now ts o.1)

  filter_append :
      (now : ℕ) (ts us : List ℕ)
      → within_minute now (ts ++ us) ≡ within_minute now ts ++ within_minute now us
  filter_append now [] us = refl
  filter_append now (t ∷ ts) us = ground (arith, filter_append now ts us)

  filter_short : (now : ℕ) (ts : List ℕ) → length (within_minute now ts) ≤ length ts
  filter_short now [] = omega arith
  filter_short now (t ∷ ts) = ground (arith, filter_short now ts)

  -- In any history from the empty store in which the clock of the `challenge` calls does not go
  -- back, at most twenty of the challenges issued for one host are at most a minute older than the
  -- last `challenge` call: whatever the other hosts, registrations and polls do in between.
  pub issued-rate :
      (es : List Event)
      → IsOrdered 0 es
      → length (within_minute (last_issue 0 es) (issued_all c id es empty_store))
        ≤ challenges_per_minute
  issued-rate es o =
      let start : Window 0 (times_of id empty_store) [] =
        unfold get in record { old = []; split = refl; aged = tt; short = omega arith } in
      let w = run-Window 0 es empty_store [] o start in
      let now = last_issue 0 es in
      rw (w.split, filter_append now w.old _, filter_old now w.old w.aged)
        (omega (arith, filter_short now (times_of id (run c es empty_store)), w.short))
