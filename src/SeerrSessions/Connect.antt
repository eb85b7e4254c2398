-- ===== src/SeerrSessions/Connect.antt =====
-- `initiate`, `complete`, `resolve` and `status` of seerr_sessions.py. Between two critical sections
-- of a call, while it waits for Seerr, the sections of other threads go on: they are the lists
-- `others`. Seerr's replies, the drawn ids and the readings of the clock are arguments.
pub mod Resolve
pub mod Signin
use relaytv.Prelude.{seconds}
use relaytv.Prelude.{◌*◌}
use relaytv.Prelude.{
  ℕ, ◌+◌, ◌-◌, ◌/◌, Bool, true, false, not, ◌&&◌, ◌||◌, Option, none, some, List, [], ◌∷◌, ◌≟◌,
  if◌then◌else◌, codes_eq, Text, codes, is_empty,
}
use relaytv.Prelude.Value.{Value, Fields}
use relaytv.SeerrSessions.Tables.{
  Result, done, raised, SeerrError, ◌>>=◌, Tables, Flow, CallerSession, Identity, Section,
  enter_all, check_flows, add_flow, look_flow, claim_flow, add_session, find_session, flow_ttl,
  session_ttl, is_opaque,
}
use relaytv.SeerrSessions.Upstream.{
  Config, caller_config, opaque_id, initiate_upstream, is_authenticated, cookie_header, identity_of,
  expired_flow, invalid_upstream, seerr_error, is_caller_mode,
}

-- The answer of `initiate`.
pub record Started : Type 0 where
  pub flow_id : Text
  pub code : Text
  pub expires_in : ℕ

-- `now`, `now'`: the readings of the clock; `flow_id`: what `token_urlsafe(32)` draws.
unfoldable pub initiate_from :
    Config → ℕ → ℕ → Text → Result (Option Fields) → List Section → Tables → Result Started × Tables
initiate_from config now now' flow_id response others t =
    let (room, t1) = check_flows now t in
    elim room [
      | raised e ↦ (raised e, t1)
      | done u ↦
          let t2 = enter_all others t1 in
          elim (initiate_upstream response) [
            | raised e ↦ (raised e, t2)
            | done (code, secret) ↦
                let (added, t3) = add_flow now' flow_id secret config.server_url t2 in
                (
                  added >>= (λ u.
                      done (record { flow_id = flow_id; code = code; expires_in = 10 * 60 })),
                  t3,
                )
          ]
    ]

unfoldable pub initiate :
    Config → ℕ → ℕ → Text → Result (Option Fields) → List Section → Tables → Result Started × Tables
unfolding initiate_from
initiate config now now' flow_id response others t = elim (caller_config config) [
  | raised e ↦ (raised e, t)
  | done config' ↦ initiate_from config' now now' flow_id response others t
]

-- The answer of `complete`.
pub data Completed : Type 0 where
  pending : Completed
  connected : Text → Identity → Completed

-- What a call of `complete` gets from outside.
pub record Replies : Type 0 where
  pub checked : Result (Option Fields)
  pub authenticated : Result (Option Fields × List Text)
  pub session_id : Text
  pub look_time : ℕ
  pub add_time : ℕ
  pub expiry_time : ℕ
  pub others_checking : List Section
  pub others_authenticating : List Section

abbrev pub session_of : Config → Replies → Text → Identity → CallerSession
session_of config r cookie identity = record {
  cookie = cookie;
  server_url = config.server_url;
  identity = identity;
  expires_at = r.expiry_time + session_ttl;
}

abbrev pub of_server : Config → Option Flow → Bool
of_server config none = false
of_server config (some flow) = flow.server_url ≟ config.server_url

module _ (load : Text → Option (List (Text × Text))) (int_of : Option Value → ℕ) where
  -- What `authenticate` gives of a session: its cookie and its user.
  unfoldable pub signed_in : Option Fields × List Text → Result (Text × Identity)
  signed_in (none, set_cookies) = invalid_upstream
  signed_in (some fields, set_cookies) =
      let cookie = cookie_header load set_cookies in
      if is_empty cookie
      then seerr_error (codes "seerr_session_missing")
          (codes "Seerr did not create a caller session") 502
      else identity_of int_of fields >>= (λ identity. done (cookie, identity))

  -- From the `authenticate` request to the end.
  unfoldable pub open_session : Config → Replies → Tables → Result Completed × Tables
  unfolding signed_in
  open_session config r t =
      let t' = enter_all r.others_authenticating t in
      elim (r.authenticated >>= signed_in) [
        | raised e ↦ (raised e, t')
        | done (cookie, identity) ↦
            let (added, t'') =
              add_session r.add_time r.session_id (session_of config r cookie identity) t' in
            (added >>= (λ u. done (connected r.session_id identity)), t'')
      ]

  -- The claim, of a user who has signed in.
  unfoldable pub claim_and_open : Config → Text → Replies → Tables → Result Completed × Tables
  unfolding open_session
  claim_and_open config flow_id r t =
      let (claimed, t') = claim_flow flow_id t in
      elim claimed [ none ↦ (expired_flow, t') | some flow ↦ open_session config r t' ]

  -- From the `check` request on.
  unfoldable pub poll : Config → Text → Replies → Tables → Result Completed × Tables
  unfolding claim_and_open
  poll config flow_id r t =
      let t' = enter_all r.others_checking t in
      elim (r.checked >>= is_authenticated) [
        | raised e ↦ (raised e, t')
        | done false ↦ (done pending, t')
        | done true ↦ claim_and_open config flow_id r t'
      ]

  unfoldable pub complete_from : Config → Text → Replies → Tables → Result Completed × Tables
  unfolding poll
  complete_from config flow_id r t =
      let (flow, t') = look_flow r.look_time flow_id t in
      if of_server config flow then poll config flow_id r t' else (expired_flow, t')

  unfoldable pub complete : Config → Text → Replies → Tables → Result Completed × Tables
  unfolding complete_from
  complete config flow_id r t = elim (opaque_id flow_id (codes "Quick Connect flow")) [
    | raised e ↦ (raised e, t)
    | done opaque ↦ elim (caller_config config) [
      | raised e ↦ (raised e, t)
      | done config' ↦ complete_from config' opaque r t
    ]
  ]

unfoldable pub resolve_id : Config → ℕ → Text → Tables → Option CallerSession × Tables
unfolding is_opaque
resolve_id config now session_id t =
    if is_opaque session_id && config.enabled && is_caller_mode config
    then find_session now config.server_url session_id t
    else (none, t)

unfoldable pub resolve : Config → ℕ → Option Text → Tables → Option CallerSession × Tables
unfolding resolve_id
resolve config now none t = (none, t)
resolve config now (some session_id) t = resolve_id config now session_id t

-- The identity and `expires_in`, of a caller who is connected.
unfoldable pub status : Config → ℕ → ℕ → Option Text → Tables → Option (Identity × ℕ) × Tables
status config now now' session_id t =
    let (session, t') = resolve config now session_id t in
    elim session [
      | none ↦ (none, t')
      | some session ↦ (some (session.identity, (session.expires_at - now') / seconds 1), t')
    ]
