-- ===== src/SeerrSessions/Connect/Signin.antt =====
-- Who signs in is found again, and whoever is found signed in.
use relaytv.Prelude.{
  ℕ, ◌+◌, ◌≡◌, ◌⊎◌, refl, sym, subst, true, false, Option, some, List, arith, length, Text,
  codes_eq, leb, Bool-cases, Option-cases, inl, inr, ≟_refl,
}
use relaytv.Prelude.Value.{Value}
use relaytv.Prelude.Dict.{get-put, get-discard}
use relaytv.Prelude.Dict
use relaytv.SeerrSessions.Tables.{
  Result, done, raised, SeerrError, ◌>>=◌, Tables, CallerSession, Identity, add_session, prune,
  claim_flow, look_flow, enter_all, session_ttl, max_sessions, require_capacity,
}
use relaytv.SeerrSessions.Tables.Invariant.{
  IsValid, add_session-IsValid, enter_all_keeps, pop_flow-IsValid, prune-IsValid,
}
use relaytv.SeerrSessions.Upstream.{Config, is_authenticated}
use relaytv.SeerrSessions.Connect.{
  Completed, connected, Replies, open_session, claim_and_open, poll, complete_from, session_of,
  signed_in, of_server,
}

pub Result-cases :
    {A : Type 0} (r : Result A) → ((a : A) × (r ≡ done a)) ⊎ ((e : SeerrError) × (r ≡ raised e))
Result-cases (done a) = inl (a, refl)
Result-cases (raised e) = inr (e, refl)

-- The session that a call of `complete` leaves.
pub record Opened (config : Config) (r : Replies) (id : Text) (identity : Identity) (t : Tables)
    : Type 0 where
  pub session : CallerSession
  pub there : Dict.get t.sessions id ≡ some session
  pub drawn : id ≡ r.session_id
  pub user : session.identity ≡ identity
  pub server : session.server_url ≡ config.server_url
  pub expiry : session.expires_at ≡ r.expiry_time + session_ttl
  pub valid : IsValid t

add_session-get :
    (now : ℕ) (id : Text) (session : CallerSession) (t : Tables)
    → (add_session now id session t).0 ≡ done tt
    → Dict.get (add_session now id session t).1.sessions id ≡ some session
unfolding add_session require_capacity
add_session-get now id session t h =
    elim (Bool-cases (leb max_sessions (length (prune now t).sessions))) [
      | inl full ↦ let no = rw (full, add_session) at h in absurd cc
      | inr room ↦
          rw (room, add_session)
            (ground (arith, get-put (prune now t).sessions id id session, ≟_refl id))
    ]

-- What it takes that the last step gives a session.
connected-inv :
    (x : Result (Unit {0})) (a b : Tables) (id id' : Text) (user user' : Identity)
    → ◌≡◌ {A = Result Completed × Tables}
        (x >>= (λ u. done (connected id user)), a)
        (done (connected id' user'), b)
    → (x ≡ done tt) × (a ≡ b) × (id ≡ id') × (user ≡ user')
connected-inv (done tt) a b id id' user user' h = ground arith
connected-inv (raised e) a b id id' user user' h = absurd cc

module _ (load : Text → Option (List (Text × Text))) (int_of : Option Value → ℕ) (config : Config)
    (r : Replies) (id : Text) (identity : Identity) where
  added-Opened :
      (cookie : Text) (user : Identity) (t t' : Tables)
      → IsValid t
      → ((add_session r.add_time r.session_id (session_of config r cookie user) t).0 ≡ done tt)
        × ((add_session r.add_time r.session_id (session_of config r cookie user) t).1 ≡ t')
        × (r.session_id ≡ id)
        × (user ≡ identity)
      → Opened config r id identity t'
  added-Opened cookie user t t' v (ok, same, drawn, who) = record {
    session = session_of config r cookie user;
    there =
        subst (λ i. Dict.get t'.sessions i ≡ some (session_of config r cookie user)) drawn
          (subst (λ u. Dict.get u.sessions r.session_id ≡ some (session_of config r cookie user))
            same (add_session-get r.add_time r.session_id (session_of config r cookie user) t ok));
    drawn = sym drawn;
    user = who;
    server = refl;
    expiry = refl;
    valid =
        subst IsValid same
          (add_session-IsValid r.add_time r.session_id (session_of config r cookie user) t v);
  }

  open_session-Opened :
      (t t' : Tables)
      → IsValid t
      → open_session load int_of config r t ≡ (done (connected id identity), t')
      → Opened config r id identity t'
  unfolding open_session
  open_session-Opened t t' v h = elim (Result-cases (r.authenticated >>= signed_in load int_of)) [
    | inr (e, failed) ↦ let no = rw (failed, open_session) at h in absurd cc
    | inl ((cookie, user), ok) ↦
        added-Opened cookie user (enter_all r.others_authenticating t) t'
          (enter_all_keeps r.others_authenticating t v)
          (connected-inv _ _ _ _ _ _ _ (rw (ok, open_session) at h))
  ]

  claim_and_open-Opened :
      (flow_id : Text) (t t' : Tables)
      → IsValid t
      → claim_and_open load int_of config flow_id r t ≡ (done (connected id identity), t')
      → Opened config r id identity t'
  unfolding claim_and_open
  claim_and_open-Opened flow_id t t' v h = elim (Option-cases (claim_flow flow_id t).0) [
    | inl gone ↦ let no = rw (gone, claim_and_open) at h in absurd cc
    | inr (flow, there) ↦
        open_session-Opened (claim_flow flow_id t).1 t'
          (unfold claim_flow in pop_flow-IsValid flow_id t v) (rw (there, claim_and_open) at h)
  ]

  poll-Opened :
      (flow_id : Text) (t t' : Tables)
      → IsValid t
      → poll load int_of config flow_id r t ≡ (done (connected id identity), t')
      → Opened config r id identity t'
  unfolding poll
  poll-Opened flow_id t t' v h = elim (Result-cases (r.checked >>= is_authenticated)) [
    | inr (e, failed) ↦ let no = rw (failed, poll) at h in absurd cc
    | inl (false, waiting) ↦ let no = rw (waiting, poll) at h in absurd cc
    | inl (true, ok) ↦
        claim_and_open-Opened flow_id (enter_all r.others_checking t) t'
          (enter_all_keeps r.others_checking t v) (rw (ok, poll) at h)
  ]

  pub complete_from-Opened :
      (flow_id : Text) (t t' : Tables)
      → IsValid t
      → complete_from load int_of config flow_id r t ≡ (done (connected id identity), t')
      → Opened config r id identity t'
  unfolding complete_from
  complete_from-Opened flow_id t t' v h =
      elim (Bool-cases (of_server config (look_flow r.look_time flow_id t).0)) [
        | inl same ↦
            poll-Opened flow_id (look_flow r.look_time flow_id t).1 t'
              (unfold look_flow in prune-IsValid r.look_time t v) (rw (same, complete_from) at h)
        | inr other ↦ let no = rw (other, complete_from) at h in absurd cc
      ]
