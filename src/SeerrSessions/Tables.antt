-- ===== src/SeerrSessions/Tables.antt =====
-- `_FLOWS` and `_SESSIONS` of seerr_sessions.py, with each critical section under `_LOCK`. A clock
-- reading is a number of nanoseconds.
pub mod Invariant
pub mod Once
use relaytv.Prelude.{
  ℕ, ◌+◌, ◌*◌, Bool, true, false, not, ◌&&◌, ◌||◌, Option, none, some, List, [], ◌∷◌, ◌++◌, ltb,
  leb, ◌==◌, ◌≟◌, if◌then◌else◌, length, codes_eq, Text, codes, seconds,
}
use relaytv.Prelude.Dict.{Dict}
use relaytv.Prelude.Dict

-- `SeerrError(code, message, status_code)`
pub record SeerrError : Type 0 where
  pub code : Text
  pub message : Text
  pub status_code : ℕ

pub data Result {ℓ} (A : Type ℓ) : Type ℓ where
  done : A → Result A
  raised : SeerrError → Result A

infixl 5 ◌>>=◌
abbrev pub ◌>>=◌ {ℓ κ} : {A : Type ℓ} {B : Type κ} → Result A → (A → Result B) → Result B
done a >>= f = f a
raised e >>= f = raised e

abbrev pub flow_ttl : ℕ
flow_ttl = seconds (10 * 60)

abbrev pub session_ttl : ℕ
session_ttl = seconds (12 * 60 * 60)

abbrev pub max_flows : ℕ
max_flows = 128

abbrev pub max_sessions : ℕ
max_sessions = 256

pub record Flow : Type 0 where
  pub secret : Text
  pub server_url : Text
  pub expires_at : ℕ

-- What `_identity` keeps of a user.
pub record Identity : Type 0 where
  pub id : ℕ
  pub display_name : Text
  pub username : Text

pub record CallerSession : Type 0 where
  pub cookie : Text
  pub server_url : Text
  pub identity : Identity
  pub expires_at : ℕ

pub record Tables : Type 0 where
  pub flows : Dict Text Flow
  pub sessions : Dict Text CallerSession

abbrev pub flow_expired : ℕ → Flow → Bool
flow_expired now flow = leb flow.expires_at now

abbrev pub session_expired : ℕ → CallerSession → Bool
session_expired now session = leb session.expires_at now

unfoldable pub prune : ℕ → Tables → Tables
prune now t = record {
  flows = Dict.discard (flow_expired now) t.flows;
  sessions = Dict.discard (session_expired now) t.sessions;
}

unfoldable pub require_capacity : ℕ → ℕ → Text → Result (Unit {0})
require_capacity size maximum label =
    if leb maximum size
    then raised (record {
      code = codes "seerr_session_capacity";
      message = codes "Too many active Seerr " ++ (label ++ codes " records; try again later");
      status_code = 503;
    })
    else done tt

-- `_OPAQUE_RE`
abbrev pub is_opaque_code : ℕ → Bool
is_opaque_code c =
    (leb b'A' c && leb c b'Z')
    || (leb b'a' c && leb c b'z')
    || (leb b'0' c && leb c b'9')
    || c == b'_'
    || c == b'-'

unfoldable pub all_of : (ℕ → Bool) → Text → Bool
all_of p [] = true
all_of p (c ∷ s) = p c && all_of p s

unfoldable pub is_opaque : Text → Bool
unfolding all_of
is_opaque s = leb 32 (length s) && leb (length s) 128 && all_of is_opaque_code s

-- The first section of `initiate`.
unfoldable pub check_flows : ℕ → Tables → Result (Unit {0}) × Tables
unfolding prune require_capacity
check_flows now t =
    let t' = prune now t in
    (require_capacity (length t'.flows) max_flows (codes "Quick Connect"), t')

-- The second section of `initiate`.
unfoldable pub add_flow : ℕ → Text → Text → Text → Tables → Result (Unit {0}) × Tables
unfolding prune require_capacity
add_flow now flow_id secret server_url t =
    let t' = prune now t in
    elim (require_capacity (length t'.flows) max_flows (codes "Quick Connect")) [
      | raised e ↦ (raised e, t')
      | done u ↦ (
        done tt,
        record t' {
          flows =
              Dict.put t'.flows flow_id
                (record { secret = secret; server_url = server_url; expires_at = now + flow_ttl });
        },
      )
    ]

-- The first section of `complete`.
unfoldable pub look_flow : ℕ → Text → Tables → Option Flow × Tables
unfolding prune
look_flow now flow_id t = let t' = prune now t in (Dict.get t'.flows flow_id, t')

-- The second section of `complete`.
unfoldable pub claim_flow : Text → Tables → Option Flow × Tables
claim_flow flow_id t = (Dict.get t.flows flow_id, record t { flows = Dict.pop t.flows flow_id })

-- The third section of `complete`.
unfoldable pub add_session : ℕ → Text → CallerSession → Tables → Result (Unit {0}) × Tables
unfolding prune require_capacity
add_session now session_id session t =
    let t' = prune now t in
    elim (require_capacity (length t'.sessions) max_sessions (codes "caller session")) [
      | raised e ↦ (raised e, t')
      | done u ↦ (done tt, record t' { sessions = Dict.put t'.sessions session_id session })
    ]

unfoldable pub same_server :
    Text → Text → Tables → Option CallerSession → Option CallerSession × Tables
same_server server_url session_id t none = (none, t)
same_server server_url session_id t (some session) =
    if session.server_url ≟ server_url
    then (some session, t)
    else (none, record t { sessions = Dict.pop t.sessions session_id })

-- The section of `resolve`.
unfoldable pub find_session : ℕ → Text → Text → Tables → Option CallerSession × Tables
unfolding prune same_server
find_session now server_url session_id t =
    let t' = prune now t in same_server server_url session_id t' (Dict.get t'.sessions session_id)

-- `if not session_id: return`
unfoldable pub retire : Option Text → Tables → Tables
retire none t = t
retire (some []) t = t
retire (some (c ∷ id)) t = record t { sessions = Dict.pop t.sessions (c ∷ id) }

unfoldable pub retire_all : Tables → Tables
retire_all t = record { flows = []; sessions = [] }

-- The sections, by what they do to the tables.
pub data Section : Type 0 where
  checking : ℕ → Section
  adding_flow : ℕ → Text → Text → Text → Section
  looking : ℕ → Text → Section
  claiming : Text → Section
  adding_session : ℕ → Text → CallerSession → Section
  finding : ℕ → Text → Text → Section
  retiring : Option Text → Section
  retiring_all : Section

unfoldable pub enter : Section → Tables → Tables
enter (checking now) t = (check_flows now t).1
enter (adding_flow now flow_id secret server_url) t = (add_flow now flow_id secret server_url t).1
enter (looking now flow_id) t = (look_flow now flow_id t).1
enter (claiming flow_id) t = (claim_flow flow_id t).1
enter (adding_session now session_id session) t = (add_session now session_id session t).1
enter (finding now server_url session_id) t = (find_session now server_url session_id t).1
enter (retiring session_id) t = retire session_id t
enter retiring_all t = retire_all t

-- Sections of any threads, in the order in which they hold the lock.
unfoldable pub enter_all : List Section → Tables → Tables
enter_all [] t = t
enter_all (x ∷ xs) t = enter_all xs (enter x t)
