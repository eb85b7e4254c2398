-- ===== src/SeerrSessions/Tables/Invariant.antt =====
-- The tables stay bounded, whatever the threads do.
use relaytv.Prelude.{
  ℕ, ◌≤◌, ◌≡◌, false, Option, none, some, List, [], ◌∷◌, arith, length, Text, codes_eq, leb,
  Bool-cases, inl, inr,
}
use relaytv.Prelude.Dict.{
  KeysOnce, KeysOnce-discard, KeysOnce-put, KeysOnce-pop, length-put_le, length-pop_le,
  length-discard_le,
}
use relaytv.Prelude.Dict
use relaytv.Prelude.{◌≟◌}
use relaytv.SeerrSessions.Tables.{
  Tables, Flow, CallerSession, Section, enter, enter_all, prune, check_flows, add_flow, look_flow,
  claim_flow, add_session, find_session, same_server, retire, retire_all, require_capacity,
  max_flows, max_sessions, flow_expired, session_expired, checking, adding_flow, looking, claiming,
  adding_session, finding, retiring, retiring_all,
}

pub record IsValid (t : Tables) : Type 0 where
  pub flows_bounded : length t.flows ≤ max_flows
  pub sessions_bounded : length t.sessions ≤ max_sessions
  pub flow_keys : KeysOnce t.flows
  pub session_keys : KeysOnce t.sessions

pub prune-IsValid : (now : ℕ) (t : Tables) → IsValid t → IsValid (prune now t)
unfolding prune
prune-IsValid now t v = record {
  flows_bounded = omega (arith, length-discard_le (flow_expired now) t.flows, v.flows_bounded);
  sessions_bounded =
      omega (arith, length-discard_le (session_expired now) t.sessions, v.sessions_bounded);
  flow_keys = KeysOnce-discard (flow_expired now) t.flows v.flow_keys;
  session_keys = KeysOnce-discard (session_expired now) t.sessions v.session_keys;
}

put_flow-IsValid :
    (id : Text) (flow : Flow) (t : Tables)
    → leb max_flows (length t.flows) ≡ false
    → IsValid t
    → IsValid (record t { flows = Dict.put t.flows id flow })
put_flow-IsValid id flow t h v = record {
  flows_bounded = ground (arith, length-put_le t.flows id flow);
  sessions_bounded = v.sessions_bounded;
  flow_keys = KeysOnce-put t.flows id flow v.flow_keys;
  session_keys = v.session_keys;
}

put_session-IsValid :
    (id : Text) (session : CallerSession) (t : Tables)
    → leb max_sessions (length t.sessions) ≡ false
    → IsValid t
    → IsValid (record t { sessions = Dict.put t.sessions id session })
put_session-IsValid id session t h v = record {
  flows_bounded = v.flows_bounded;
  sessions_bounded = ground (arith, length-put_le t.sessions id session);
  flow_keys = v.flow_keys;
  session_keys = KeysOnce-put t.sessions id session v.session_keys;
}

pub pop_flow-IsValid :
    (id : Text) (t : Tables) → IsValid t → IsValid (record t { flows = Dict.pop t.flows id })
pop_flow-IsValid id t v = record {
  flows_bounded = omega (arith, length-pop_le t.flows id, v.flows_bounded);
  sessions_bounded = v.sessions_bounded;
  flow_keys = KeysOnce-pop t.flows id v.flow_keys;
  session_keys = v.session_keys;
}

pop_session-IsValid :
    (id : Text) (t : Tables) → IsValid t → IsValid (record t { sessions = Dict.pop t.sessions id })
pop_session-IsValid id t v = record {
  flows_bounded = v.flows_bounded;
  sessions_bounded = omega (arith, length-pop_le t.sessions id, v.sessions_bounded);
  flow_keys = v.flow_keys;
  session_keys = KeysOnce-pop t.sessions id v.session_keys;
}

add_flow-IsValid :
    (now : ℕ) (id secret server_url : Text) (t : Tables)
    → IsValid t
    → IsValid (add_flow now id secret server_url t).1
unfolding add_flow require_capacity
add_flow-IsValid now id secret server_url t v =
    let pruned = prune-IsValid now t v in
    elim (Bool-cases (leb max_flows (length (prune now t).flows))) [
      | inl h ↦ rw (h, add_flow) pruned
      | inr h ↦ rw (h, add_flow) (put_flow-IsValid id _ (prune now t) h pruned)
    ]

pub add_session-IsValid :
    (now : ℕ) (id : Text) (session : CallerSession) (t : Tables)
    → IsValid t
    → IsValid (add_session now id session t).1
unfolding add_session require_capacity
add_session-IsValid now id session t v =
    let pruned = prune-IsValid now t v in
    elim (Bool-cases (leb max_sessions (length (prune now t).sessions))) [
      | inl h ↦ rw (h, add_session) pruned
      | inr h ↦ rw (h, add_session) (put_session-IsValid id session (prune now t) h pruned)
    ]

same_server-IsValid :
    (server_url id : Text) (t : Tables) (found : Option CallerSession)
    → IsValid t
    → IsValid (same_server server_url id t found).1
unfolding same_server
same_server-IsValid server_url id t none v = v
same_server-IsValid server_url id t (some session) v =
    elim (Bool-cases (session.server_url ≟ server_url)) [
      | inl h ↦ rw h v
      | inr h ↦ rw h (pop_session-IsValid id t v)
    ]

retire-IsValid : (id : Option Text) (t : Tables) → IsValid t → IsValid (retire id t)
unfolding retire
retire-IsValid none t v = v
retire-IsValid (some []) t v = v
retire-IsValid (some (c ∷ id)) t v = pop_session-IsValid (c ∷ id) t v

nothing-IsValid : IsValid (record { flows = []; sessions = [] })
nothing-IsValid = record {
  flows_bounded = omega arith;
  sessions_bounded = omega arith;
  flow_keys = tt;
  session_keys = tt;
}

pub enter-IsValid : (x : Section) (t : Tables) → IsValid t → IsValid (enter x t)
unfolding enter check_flows look_flow claim_flow find_session retire_all
enter-IsValid (checking now) t v = prune-IsValid now t v
enter-IsValid (adding_flow now id secret url) t v = add_flow-IsValid now id secret url t v
enter-IsValid (looking now id) t v = prune-IsValid now t v
enter-IsValid (claiming id) t v = pop_flow-IsValid id t v
enter-IsValid (adding_session now id session) t v = add_session-IsValid now id session t v
enter-IsValid (finding now url id) t v =
    same_server-IsValid url id (prune now t) (Dict.get (prune now t).sessions id)
      (prune-IsValid now t v)
enter-IsValid (retiring id) t v = retire-IsValid id t v
enter-IsValid retiring_all t v = nothing-IsValid

pub enter_all_keeps : (xs : List Section) (t : Tables) → IsValid t → IsValid (enter_all xs t)
unfolding enter_all
enter_all_keeps [] t v = v
enter_all_keeps (x ∷ xs) t v = enter_all_keeps xs (enter x t) (enter-IsValid x t v)

-- From empty tables, whatever critical sections the threads enter, in any order and at any times,
-- there are at most 128 flows and 256 sessions, and every id stands once.
pub enter_all-IsValid :
    (xs : List Section) → IsValid (enter_all xs (record { flows = []; sessions = [] }))
enter_all-IsValid xs = enter_all_keeps xs (record { flows = []; sessions = [] }) nothing-IsValid
