-- ===== src/SeerrSessions/Connect/Resolve.antt =====
-- Who signs in is found again until the session ends, and whoever is found signed in.
use relaytv.Prelude.{subst}
use relaytv.Prelude.{
  ℕ, ◌+◌, ◌<◌, ◌≡◌, sym, true, Option, none, some, List, arith, Text, codes_eq, Bool-cases, inl,
  inr, codes, ≟_iff, ◌&&◌,
}
use relaytv.Prelude.Value.{Value}
use relaytv.Prelude.Dict.{get-discard, keep_if}
use relaytv.Prelude.Dict
use relaytv.SeerrSessions.Tables.{
  done, Tables, CallerSession, Identity, find_session, same_server, prune, session_expired,
  is_opaque, session_ttl,
}
use relaytv.SeerrSessions.Tables.Invariant.{IsValid}
use relaytv.SeerrSessions.Upstream.{Config, caller_config, opaque_id, is_caller_mode}
use relaytv.SeerrSessions.Connect.{connected, Replies, complete, resolve, resolve_id}
use relaytv.SeerrSessions.Connect.Signin.{Result-cases, Opened, complete_from-Opened}

prune-get :
    (now : ℕ) (id : Text) (t : Tables)
    → IsValid t
    → Dict.get (prune now t).sessions id ≡ keep_if (session_expired now) (Dict.get t.sessions id)
unfolding prune
prune-get now id t v = get-discard (session_expired now) t.sessions id v.session_keys

find_session-there :
    (now : ℕ) (url id : Text) (session : CallerSession) (t : Tables)
    → IsValid t
    → Dict.get t.sessions id ≡ some session
    → session.server_url ≡ url
    → now < session.expires_at
    → (find_session now url id t).0 ≡ some session
unfolding find_session same_server
find_session-there now url id session t v there server alive =
    rw (prune-get now id t v, find_session)
      (rw there (ground (arith, ≟_iff session.server_url url)))

-- What holds of a session that is found.
pub record Live (config : Config) (now : ℕ) (id : Text) (session : CallerSession) (t : Tables)
    : Type 0 where
  pub there : Dict.get t.sessions id ≡ some session
  pub alive : now < session.expires_at
  pub server : session.server_url ≡ config.server_url
  pub enabled : config.enabled ≡ true
  pub mode : config.request_mode ≡ codes "caller_session"

found-live :
    (now : ℕ) (url id : Text) (session : CallerSession) (t : Tables) (found : Option CallerSession)
    → (same_server url id (prune now t) (keep_if (session_expired now) found)).0 ≡ some session
    → (found ≡ some session) × (now < session.expires_at) × (session.server_url ≡ url)
unfolding same_server
found-live now url id session t none h = absurd cc
found-live now url id session t (some x) h = ground (arith, ≟_iff x.server_url url)

-- Where the tables are well formed, a caller is served only by a session that is in the table
-- under the given id, has not ended, and was opened with the Seerr server that is set now, and
-- only while caller sessions are enabled.
pub resolve-Live :
    (config : Config) (now : ℕ) (id : Text) (session : CallerSession) (t : Tables)
    → IsValid t
    → (resolve config now (some id) t).0 ≡ some session
    → Live config now id session t
unfolding resolve resolve_id find_session
resolve-Live config now id session t v h =
    elim (Bool-cases (is_opaque id && config.enabled && is_caller_mode config)) [
      | inr off ↦ let no = rw (off, resolve_id) at h in absurd cc
      | inl on ↦
          let h' = rw (prune-get now id t v) at (rw (on, resolve_id) at h) in
          let f = found-live now config.server_url id session t (Dict.get t.sessions id) h' in
          record {
            there = f.0;
            alive = f.1;
            server = f.2;
            enabled = ground arith;
            mode = ground (arith, ≟_iff config.request_mode (codes "caller_session"));
          }
    ]

caller_config_self :
    (config config' : Config)
    → caller_config config ≡ done config'
    → (config ≡ config') × (config.enabled ≡ true) × (is_caller_mode config ≡ true)
unfolding caller_config
caller_config_self config config' h = ground arith

resolve-Opened :
    (config : Config) (r : Replies) (now : ℕ) (id : Text) (identity : Identity) (t : Tables)
    → is_opaque r.session_id ≡ true
    → config.enabled ≡ true
    → is_caller_mode config ≡ true
    → now < r.expiry_time + session_ttl
    → Opened config r id identity t
    → (session : CallerSession) × ((resolve config now (some id) t).0 ≡ some session)
      × (session.identity ≡ identity)
unfolding resolve resolve_id
resolve-Opened config r now id identity t shape enabled mode alive o =
    let opaque : is_opaque id ≡ true = rw o.drawn shape in
    (
      o.session,
      rw (opaque, resolve_id)
          (rw enabled (
            rw mode (
              find_session-there now config.server_url id o.session t o.valid o.there o.server
                (omega (arith, alive, o.expiry))))),
      o.user,
    )

-- From tables that are well formed, where `complete` connects a caller, and the drawn session id
-- has the shape that ids are checked for, `resolve` finds under that id, with the tables that
-- `complete` leaves, the session of the same user until it ends, whatever other threads did while
-- `complete` waited for Seerr.
pub complete-resolves :
    (load : Text → Option (List (Text × Text))) (int_of : Option Value → ℕ) (config : Config)
    (r : Replies) (flow_id id : Text) (identity : Identity) (now : ℕ) (t t' : Tables)
    → IsValid t
    → is_opaque r.session_id ≡ true
    → now < r.expiry_time + session_ttl
    → complete load int_of config flow_id r t ≡ (done (connected id identity), t')
    → (session : CallerSession) × ((resolve config now (some id) t').0 ≡ some session)
      × (session.identity ≡ identity)
unfolding complete
complete-resolves load int_of config r flow_id id identity now t t' v shape alive h =
    elim (Result-cases (opaque_id flow_id (codes "Quick Connect flow"))) [
      | inr (e, bad) ↦ let no = rw (bad, complete) at h in absurd cc
      | inl (opaque, ok) ↦ elim (Result-cases (caller_config config)) [
        | inr (e, bad) ↦ let no = rw bad at (rw (ok, complete) at h) in absurd cc
        | inl (config', good) ↦
            let (same, enabled, mode) = caller_config_self config config' good in
            let h' = rw good at (rw (ok, complete) at h) in
            resolve-Opened config r now id identity t' shape enabled mode alive (
              subst (λ c. Opened c r id identity t') (sym same)
                (complete_from-Opened load int_of config' r id identity opaque t t' v h'))
      ]
    ]
