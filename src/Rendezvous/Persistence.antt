-- ===== src/Rendezvous/Persistence.antt =====
-- The state file of crates/ra-rendezvous/src/lib.rs: what a restart brings back.
use remote_access.Base.{
  ◌≡◌, refl, ap, ◌∙◌, Option, none, some, List, [], ◌∷◌, Text, Map, arith, get, insert, remove,
  get-insert, get-remove, values, text_eq, text_eq_iff, text_eq_refl,
}
use remote_access.Rendezvous.State.{
  HostRecord, Store, empty_store, Json, done, saved, revived, saved_all, persist, load,
  insert_hosts,
}
use remote_access.Proto.External.{Crypto}
use remote_access.Rendezvous.System.{Event, exec, run}
use remote_access.Rendezvous.Registry.History.{exec_cases}

-- Every key of the map stands once, and every record carries its key.
abbrev IsKeyed : Map HostRecord → Type 0
IsKeyed [] = Unit
IsKeyed ((k, h) ∷ m) = (h.id ≡ k) × (get k m ≡ none) × IsKeyed m

-- The record that a restart brings back: every field but the two of when the host was seen.
abbrev pub restored : Option HostRecord → Option HostRecord → Option HostRecord
restored none other = other
restored (some h) other = some (record {
  id = h.id;
  token_fp = h.token_fp;
  name = h.name;
  platform = h.platform;
  endpoints = h.endpoints;
  password_salt = h.password_salt;
  agent_version = h.agent_version;
  last_seen = none;
  last_seen_unix = 0;
})

insert_hosts-get :
    (id : Text) (m acc : Map HostRecord)
    → IsKeyed m
    → get id (insert_hosts (saved_all (values m)) acc) ≡ restored (get id m) (get id acc)
unfolding insert_hosts saved_all saved revived values get
insert_hosts-get id [] acc k = refl
insert_hosts-get id ((j, h) ∷ m) acc (own, fresh, k) = ground (
  arith,
  insert_hosts-get id m (insert h.id (revived (saved h)) acc) k,
  get-insert h.id id (revived (saved h)) acc,
  text_eq_iff j id,
  ap (λ (i : Text). text_eq i id) own,
)

load-persist :
    (json : Json) (s : Store) (old : Option json.Contents) (id : Text)
    → IsKeyed s.hosts
    → get id (load json (persist json done s (some old))).hosts ≡ restored (get id s.hosts) none
unfolding load persist
load-persist json s old id k =
    let (t, wrote, read) = json.from_str-to_string_pretty (saved_all (values s.hosts)) in
    rw (wrote, persist, load, read) (insert_hosts-get id s.hosts [] k ∙ unfold get in refl)

get-own :
    (id : Text) (h : HostRecord) (m : Map HostRecord) → IsKeyed m → get id m ≡ some h → h.id ≡ id
unfolding get
get-own id h [] k e = cc
get-own id h ((j, h') ∷ m) (own, fresh, k) e =
    ground (arith, get-own id h m k, text_eq_iff j id, own)

remove-IsKeyed : (id : Text) (m : Map HostRecord) → IsKeyed m → IsKeyed (remove id m)
unfolding remove
remove-IsKeyed id [] k = tt
remove-IsKeyed id ((j, h) ∷ m) (own, fresh, k) =
    ground (arith, own, fresh, remove-IsKeyed id m k, get-remove id j m)

insert-IsKeyed :
    (id : Text) (h : HostRecord) (m : Map HostRecord)
    → h.id ≡ id
    → IsKeyed m
    → IsKeyed (insert id h m)
unfolding insert
insert-IsKeyed id h m own k =
    (own, ground (arith, get-remove id id m, text_eq_refl id), remove-IsKeyed id m k)

module _ (c : Crypto) where
  exec-IsKeyed : (e : Event) (s : Store) → IsKeyed s.hosts → IsKeyed (exec c e s).hosts
  exec-IsKeyed e s k =
      exec_cases c IsKeyed s k
        (λ id h h' found new.
          insert-IsKeyed id h' s.hosts (new.same_id ∙ get-own id h s.hosts k found) k)
        (λ fuel rng now unix req id checked chosen. insert-IsKeyed id _ s.hosts refl k) e

  run-IsKeyed : (es : List Event) (s : Store) → IsKeyed s.hosts → IsKeyed (run c es s).hosts
  unfolding run
  run-IsKeyed [] s k = k
  run-IsKeyed (e ∷ es) s k = run-IsKeyed es (exec c e s) (exec-IsKeyed e s k)

  -- After any history from the empty store, a restart from the state file that was written then brings
  -- back the record of every ID, each of its fields but the two of when the host was seen, and no other
  -- record.
  pub load-persist-run :
      (json : Json) (es : List Event) (old : Option json.Contents) (id : Text)
      → get id (load json (persist json done (run c es empty_store) (some old))).hosts
        ≡ restored (get id (run c es empty_store).hosts) none
  load-persist-run json es old id =
      load-persist json (run c es empty_store) old id (run-IsKeyed es empty_store tt)
