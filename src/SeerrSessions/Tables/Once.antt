-- ===== src/SeerrSessions/Tables/Once.antt =====
-- A flow is claimed once, and a session that is found is alive and of the server asked for.
use relaytv.Prelude.Dict.{Dict}
use relaytv.Prelude.{
  ℕ, ◌≡◌, ◌≢◌, refl, false, Option, none, some, List, [], ◌∷◌, arith, length, Text, codes_eq, leb,
  Bool-cases, inl, inr, ≟_iff, ≟_refl,
}
use relaytv.Prelude.Dict.{
  has_key-discard-false, has_key-put, has_key-pop, get-has_key-false, get-discard, get-pop,
}
use relaytv.Prelude.Dict
use relaytv.SeerrSessions.Tables.{
  Tables, CallerSession, Section, enter, enter_all, prune, check_flows, add_flow, look_flow,
  claim_flow, add_session, find_session, same_server, retire, retire_all, require_capacity,
  max_flows, flow_expired, checking, adding_flow, looking, claiming, adding_session, finding,
  retiring, retiring_all,
}

-- The section does not begin a flow of this id.
abbrev pub Spares : Text → Section → Type 0
Spares id (adding_flow now id' secret server_url) = id' ≢ id
Spares id x = Unit {0}

abbrev pub AllSpare : Text → List Section → Type 0
AllSpare id [] = Unit {0}
AllSpare id (x ∷ xs) = Spares id x × AllSpare id xs

put_spares :
    {V : Type 0} (m : Dict Text V) (k id : Text) (v : V)
    → k ≢ id
    → Dict.has_key m id ≡ false
    → Dict.has_key (Dict.put m k v) id ≡ false
put_spares m k id v other h = ground (arith, ≟_iff k id, has_key-put m k id v)

pub same_server_flows :
    (url id : Text) (t : Tables) (found : Option CallerSession)
    → (same_server url id t found).1.flows ≡ t.flows
unfolding same_server
same_server_flows url id t none = refl
same_server_flows url id t (some session) = ground arith

add_flow_spares :
    (now : ℕ) (id' secret server_url id : Text) (t : Tables)
    → id' ≢ id
    → Dict.has_key t.flows id ≡ false
    → Dict.has_key (add_flow now id' secret server_url t).1.flows id ≡ false
unfolding add_flow require_capacity
add_flow_spares now id' secret server_url id t other h =
    let pruned = has_key-discard-false (flow_expired now) t.flows id h in
    elim (Bool-cases (leb max_flows (length (prune now t).flows))) [
      | inl full ↦ rw (full, add_flow) (unfold prune in pruned)
      | inr room ↦
          rw (room, add_flow)
            (put_spares (prune now t).flows id' id _ other (unfold prune in pruned))
    ]

enter-Spares :
    (x : Section) (id : Text) (t : Tables)
    → Spares id x
    → Dict.has_key t.flows id ≡ false
    → Dict.has_key (enter x t).flows id ≡ false
unfolding enter check_flows look_flow claim_flow find_session retire retire_all prune
enter-Spares (checking now) id t o h = has_key-discard-false (flow_expired now) t.flows id h
enter-Spares (adding_flow now id' secret url) id t o h = add_flow_spares now id' secret url id t o h
enter-Spares (looking now id') id t o h = has_key-discard-false (flow_expired now) t.flows id h
enter-Spares (claiming id') id t o h = ground (arith, h, has_key-pop t.flows id' id)
enter-Spares (adding_session now id' session) id t o h =
    let pruned = has_key-discard-false (flow_expired now) t.flows id h in
    unfold add_session require_capacity in ground (arith, pruned)
enter-Spares (finding now url id') id t o h =
    let pruned = has_key-discard-false (flow_expired now) t.flows id h in
    rw (same_server_flows url id' (prune now t) (Dict.get (prune now t).sessions id')) pruned
enter-Spares (retiring none) id t o h = h
enter-Spares (retiring (some [])) id t o h = h
enter-Spares (retiring (some (c ∷ id'))) id t o h = h
enter-Spares retiring_all id t o h = unfold Dict.has_key in refl

enter_all_spares :
    (xs : List Section) (id : Text) (t : Tables)
    → AllSpare id xs
    → Dict.has_key t.flows id ≡ false
    → Dict.has_key (enter_all xs t).flows id ≡ false
unfolding enter_all
enter_all_spares [] id t o h = h
enter_all_spares (x ∷ xs) id t o h =
    enter_all_spares xs id (enter x t) o.1 (enter-Spares x id t o.0 h)

-- After a flow was claimed, and whatever other critical sections follow, as long as none begins a
-- flow of the same id, a second claim finds nothing.
pub claim_flow-once :
    (id : Text) (xs : List Section) (t : Tables)
    → AllSpare id xs
    → (claim_flow id (enter_all xs (claim_flow id t).1)).0 ≡ none
unfolding claim_flow
claim_flow-once id xs t o =
    let gone : Dict.has_key (claim_flow id t).1.flows id ≡ false =
      ground (arith, has_key-pop t.flows id id, ≟_refl id) in
    get-has_key-false (enter_all xs (claim_flow id t).1).flows id
      (enter_all_spares xs id (claim_flow id t).1 o gone)
