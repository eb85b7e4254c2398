-- ===== src/SeerrSessions/Tests.antt =====
-- A sign-in, and the theorems at concrete tables.
use relaytv.Prelude.{
  ℕ, ◌+◌, ◌≡◌, refl, true, Option, none, some, List, [], ◌∷◌, arith, Text, codes, codes_eq,
}
use relaytv.Prelude.Dict
use relaytv.Prelude.Value.{Value, text, flag}
use relaytv.SeerrSessions.Tables.{
  done, Tables, CallerSession, Identity, Section, is_opaque, session_ttl, retiring_all, checking,
  adding_flow, enter_all, claim_flow,
}
use relaytv.SeerrSessions.Tables.Invariant.{IsValid, enter_all-IsValid}
use relaytv.SeerrSessions.Tables.Once.{claim_flow-once}
use relaytv.SeerrSessions.Upstream.{Config}
use relaytv.SeerrSessions.Connect.{connected, Replies, complete, resolve}
use relaytv.SeerrSessions.Connect.Resolve.{Live, resolve-Live, complete-resolves}

abbrev config : Config
config = record {
  enabled = true;
  configuration_error = [];
  server_url = codes "https://seerr";
  request_mode = codes "caller_session";
}

abbrev flow_id : Text
flow_id = codes "AAAAAAAAAAAAAAAAAAAAAAAAAAAAAAAA"

abbrev session_id : Text
session_id = codes "BBBBBBBBBBBBBBBBBBBBBBBBBBBBBBBB"

abbrev user : Identity
user = record { id = 7; display_name = codes "Ada"; username = codes "ada" }

abbrev load_one : Text → Option (List (Text × Text))
load_one value = some ((codes "connect.sid", codes "x") ∷ [])

abbrev always_seven : Option Value → ℕ
always_seven value = 7

abbrev replies : Replies
replies = record {
  checked = done (some ((codes "authenticated", flag true) ∷ []));
  authenticated = done (
    some ((codes "displayName", text (codes "Ada")) ∷ (codes "username", text (codes "ada")) ∷ []),
    codes "connect.sid=x" ∷ [],
  );
  session_id = session_id;
  look_time = 10;
  add_time = 20;
  expiry_time = 21;
  others_checking = checking 11 ∷ [];
  others_authenticating = [];
}

abbrev before : Tables
before = record {
  flows =
      (
        flow_id,
        record { secret = codes "abcdef12"; server_url = config.server_url; expires_at = 99 },
      )
      ∷ [];
  sessions = [];
}

abbrev session : CallerSession
session = record {
  cookie = codes "connect.sid=x";
  server_url = config.server_url;
  identity = user;
  expires_at = 21 + session_ttl;
}

abbrev after : Tables
after = record { flows = []; sessions = (session_id, session) ∷ [] }

before-IsValid : IsValid before
unfolding Dict.has_key
before-IsValid = record {
  flows_bounded = omega arith;
  sessions_bounded = omega arith;
  flow_keys = (refl, tt);
  session_keys = tt;
}

after-IsValid : IsValid after
unfolding Dict.has_key
after-IsValid = record {
  flows_bounded = omega arith;
  sessions_bounded = omega arith;
  flow_keys = tt;
  session_keys = (refl, tt);
}

session_id-is_opaque : is_opaque session_id ≡ true
unfolding is_opaque
session_id-is_opaque = refl

signs_in :
    complete load_one always_seven config flow_id replies before
    ≡ (done (connected session_id user), after)
unfolding complete relaytv.SeerrSessions.Upstream.opaque_id relaytv.Prelude.strip
    relaytv.SeerrSessions.Upstream.caller_config relaytv.Prelude.codes_beq
    relaytv.SeerrSessions.Tables.look_flow Dict.get Dict.discard
    relaytv.SeerrSessions.Upstream.is_authenticated claim_flow enter_all
    relaytv.SeerrSessions.Tables.enter relaytv.SeerrSessions.Tables.check_flows
    relaytv.SeerrSessions.Upstream.cookie_header relaytv.SeerrSessions.Upstream.identity_of
    relaytv.SeerrSessions.Tables.add_session relaytv.Prelude.Value.or_empty Dict.pop Dict.put
signs_in = refl

complete-resolves_example :
    (found : CallerSession) × ((resolve config 30 (some session_id) after).0 ≡ some found)
    × (found.identity ≡ user)
complete-resolves_example =
    complete-resolves load_one always_seven config replies flow_id session_id user 30 before after
      before-IsValid session_id-is_opaque (omega arith) signs_in

found_there : (resolve config 30 (some session_id) after).0 ≡ some session
unfolding resolve relaytv.Prelude.codes_beq relaytv.SeerrSessions.Tables.find_session Dict.get
    Dict.discard
found_there = refl

resolve-Live_example : Live config 30 session_id session after
resolve-Live_example = resolve-Live config 30 session_id session after after-IsValid found_there

abbrev sections : List Section
sections = adding_flow 1 flow_id (codes "abcdef12") config.server_url ∷ retiring_all ∷ []

enter_all-IsValid_example : IsValid (enter_all sections (record { flows = []; sessions = [] }))
enter_all-IsValid_example = enter_all-IsValid sections

claim_flow-once_example :
    (claim_flow flow_id (enter_all (checking 12 ∷ []) (claim_flow flow_id before).1)).0 ≡ none
claim_flow-once_example = claim_flow-once flow_id (checking 12 ∷ []) before (tt, tt)
