-- ===== src/Fakehost/WebApi.antt =====
-- The web API of crates/ra-fakehost/src/main.rs: who may ask, and who is sent a PIN.
use remote_access.Base.{
  subst, ℕ, ◌≡◌, refl, sym, true, false, ◌&&◌, ◌==◌, Bool-cases, inl, inr, Option, none, some, Text,
  lit, all, is_ascii_digit, len, unwrap_or, arith,
}
use remote_access.Gamestream.External.{Libraries}
use remote_access.Fakehost.{
  status_answer, Headers, Object, Parked, Answer, Inner, get_str, authed, api_pin, clients_list,
  clients_update, api_config, Args,
}

module _ (l : Libraries) where
  -- Without the cookie of the session every request of the web API is answered 401, sends no PIN and
  -- changes nothing.
  refused-authed :
      (args : Args) (h : Headers) (v : Object) (s : Inner l)
      → authed h ≡ false
      → ((api_pin l h v s).0.status ≡ 401)
        × ((api_pin l h v s).1 ≡ s)
        × ((api_pin l h v s).2 ≡ none)
        × ((clients_list l h s).status ≡ 401)
        × ((clients_update l h v s).0.status ≡ 401)
        × ((clients_update l h v s).1 ≡ s)
        × ((api_config args h).status ≡ 401)
  unfolding api_pin clients_list clients_update api_config
  refused-authed args h v s e =
      rw (e, api_pin, clients_list, clients_update, api_config)
        (refl, refl, refl, refl, refl, refl, refl)

  -- What is sent of a PIN: it has four digits, goes to the parked waiter, and the session is parked no more.
  abbrev pub SendsOnce : Inner l → Answer × Inner l × Option (ℕ × Text × Text) → Type 0
  SendsOnce s (a, s', none) = s' ≡ s
  SendsOnce s (a, s', some (waiter, pin, name)) =
      (len pin ≡ 4)
      × (all is_ascii_digit pin ≡ true)
      × ((q : Text) × (s.parked ≡ some (record { query = q; waiter = waiter })))
      × (s'.parked ≡ none)

  pin_at :
      (h : Headers) (v : Object) (s : Inner l) (o : Option Parked)
      → s.parked ≡ o
      → authed h ≡ true
      → len (unwrap_or (get_str (lit "pin") v) (lit "")) ≡ 4
      → all is_ascii_digit (unwrap_or (get_str (lit "pin") v) (lit "")) ≡ true
      → SendsOnce s (api_pin l h v s)
  unfolding api_pin
  pin_at h v s none eo ea en ed = ground arith
  pin_at h v s (some p) eo ea en ed =
      let sent : api_pin l h v s ≡ (
        status_answer true,
        record s { parked = none },
        some (
          p.waiter,
          unwrap_or (get_str (lit "pin") v) (lit ""),
          unwrap_or (get_str (lit "name") v) (lit ""),
        ),
      ) =
        ground arith in
      subst (SendsOnce s) (sym sent) (en, ed, (p.query, eo), refl)

  -- What is not a PIN, or comes without the session, changes nothing.
  not_sent :
      (h : Headers) (v : Object) (s : Inner l)
      → (authed h
          && ((len (unwrap_or (get_str (lit "pin") v) (lit "")) == 4)
              && all is_ascii_digit (unwrap_or (get_str (lit "pin") v) (lit ""))))
        ≡ false
      → SendsOnce s (api_pin l h v s)
  unfolding api_pin
  not_sent h v s e = ground arith

  -- A request for the PIN either changes nothing, or sends four digits to the waiter of the parked
  -- query, which is parked no more: no PIN is sent to two waiters, and no waiter is sent two PINs.
  pub api_pin-SendsOnce : (h : Headers) (v : Object) (s : Inner l) → SendsOnce s (api_pin l h v s)
  api_pin-SendsOnce h v s =
      let pin = unwrap_or (get_str (lit "pin") v) (lit "") in
      elim (Bool-cases (authed h && ((len pin == 4) && all is_ascii_digit pin))) [
        | inr e ↦ not_sent h v s e
        | inl e ↦ pin_at h v s s.parked refl (ground arith) (ground arith) (ground arith)
      ]
