-- ===== src/Host/Calls.antt =====
-- The calls that one operation of crates/ra-host/src/apollo.rs makes.
use remote_access.Base.{
  ℕ, zero, suc, ◌+◌, ◌*◌, ◌≤◌, ◌≡◌, Bool, true, Option, none, some, List, ◌∷◌, ◌++◌, ◌⊎◌, ap, ◌∙◌,
  subst, refl, lit, Text, length, Result, ok, err, arith,
}
use remote_access.Host.Apollos.{
  Body, credentials, Call, Reply, WebState, WebClient, send_call, login, current_cookie, call_from,
  call,
}

module _ (w : WebClient) where
  cookie-calls : (s : WebState) → length (current_cookie w s).1.calls ≤ suc (length s.calls)
  unfolding current_cookie login send_call
  cookie-calls s = ground arith

  call_from-calls :
      (n : ℕ) (post : Bool) (path : Text) (body : Option Body) (s : WebState)
      → length (call_from w n post path body s).1.calls ≤ length s.calls + 2 * n
  unfolding call_from send_call
  call_from-calls zero post path body s = omega arith
  call_from-calls (suc n) post path body s =
      ground (arith, cookie-calls s, call_from-calls n post path body)

  abbrev pub login_call : Call
  login_call = record {
    is_post = true;
    url = w.base ++ lit "/api/login";
    cookie = none;
    body = some (credentials w.username w.password);
  }

  cookie_calls :
      (s : WebState)
      → ((current_cookie w s).1.calls ≡ s.calls)
        ⊎ ((current_cookie w s).1.calls ≡ login_call ∷ s.calls)
  unfolding current_cookie login send_call
  cookie_calls s = ground arith

  login_first :
      (s : WebState) → s.cookie ≡ none → (current_cookie w s).1.calls ≡ login_call ∷ s.calls
  unfolding current_cookie login send_call
  login_first s e = ground arith

  module _ (post : Bool) (path : Text) (body : Option Body) where
    -- The request itself, with that cookie
    abbrev pub request : Text → Call
    request cookie = record {
      is_post = post;
      url = w.base ++ path;
      cookie = some cookie;
      body = body;
    }

    -- The calls after a 401 that was not the last word: the request, a login, and the request again.
    abbrev pub TriedAgain : List Call → List Call → Type 0
    TriedAgain old new =
        (first second : Text) × (before : List Call) × ((before ≡ old)
          ⊎ (before ≡ login_call ∷ old))
        × (new ≡ request second ∷ login_call ∷ request first ∷ before)

    last_at :
        (s : WebState) (r : Reply) (o : Result Text Text)
        → (current_cookie w s).0 ≡ o
        → (call_from w 1 post path body s).0 ≡ ok r
        → (second : Text) × ((call_from w 1 post path body s).1.calls
            ≡ request second ∷ (current_cookie w s).1.calls)
    unfolding call_from send_call
    last_at s r (err e) eo h = absurd (ground arith)
    last_at s r (ok second) eo h = (second, ground arith)

    first_at :
        (s : WebState) (r : Reply) (o : Result Text Text)
        → (current_cookie w s).0 ≡ o
        → (call_from w 2 post path body s).0 ≡ ok r
        → r.status ≡ 401
        → TriedAgain s.calls (call_from w 2 post path body s).1.calls
    unfolding call_from send_call
    first_at s r (err e) eo h refused = absurd (ground arith)
    first_at s r (ok first) eo h refused =
        let c = current_cookie w s in
        let t = record c.1 { calls = request first ∷ c.1.calls; cookie = none } in
        let again : call_from w 2 post path body s ≡ call_from w 1 post path body t =
          ground arith in
        let (second, e) = last_at t r _ refl (subst (λ x. x.0 ≡ ok r) again h) in
        (
          first,
          second,
          c.1.calls,
          cookie_calls s,
          ap (λ x. x.1.calls) again ∙ (e ∙ ap (λ l. request second ∷ l) (login_first t refl)),
        )

  -- An operation makes at most four requests, the last ones of the log. An answer 401 is returned only
  -- after the request was made, there was a new login, and the request was made again.
  pub call-bounds :
      (post : Bool) (path : Text) (body : Option Body) (s : WebState) (r : Reply)
      → (call w post path body s).0 ≡ ok r
      → (length (call w post path body s).1.calls ≤ length s.calls + 4)
        × (r.status ≡ 401 → TriedAgain post path body s.calls (call w post path body s).1.calls)
  unfolding call
  call-bounds post path body s r h =
      (call_from-calls 2 post path body s, first_at post path body s r _ refl h)
