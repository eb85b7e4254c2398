-- ===== src/SeerrSessions/Upstream.antt =====
-- What seerr_sessions.py checks of its own settings, of its callers' ids, and of Seerr's replies. A
-- reply is a JSON dict (`none`: another value). Parameters stand for the standard library's
-- `SimpleCookie.load` (`none`: it raises) and `int(value or 0)` (0 where it raises or is negative).
use relaytv.Prelude.{
  ℕ, Bool, false, not, ◌&&◌, ◌||◌, Option, none, some, List, [], ◌∷◌, ◌++◌, ltb, leb, ◌==◌, ◌≟◌,
  if◌then◌else◌, length, take, codes_eq, Text, codes, strip, is_empty,
}
use relaytv.Prelude.Dict
use relaytv.Prelude.Value.{Value, Fields, or_empty, truth}
use relaytv.SeerrSessions.Tables.{Result, done, raised, Identity, all_of, is_opaque}

-- `SeerrConfig.current()`, as far as sessions read it.
pub record Config : Type 0 where
  pub enabled : Bool
  pub configuration_error : Text
  pub server_url : Text
  pub request_mode : Text

abbrev pub seerr_error {ℓ} : {A : Type ℓ} → Text → Text → ℕ → Result A
seerr_error code message status =
    raised (record { code = code; message = message; status_code = status })

abbrev pub invalid_upstream {ℓ} : {A : Type ℓ} → Result A
invalid_upstream =
    seerr_error (codes "seerr_invalid_response")
      (codes "Seerr returned an unexpected authentication response") 502

abbrev pub expired_flow {ℓ} : {A : Type ℓ} → Result A
expired_flow =
    seerr_error (codes "seerr_quick_connect_expired") (codes "Quick Connect expired; start again")
      404

abbrev pub is_caller_mode : Config → Bool
is_caller_mode config = config.request_mode ≟ codes "caller_session"

unfoldable pub caller_config : Config → Result Config
caller_config config =
    if not config.enabled
    then seerr_error (codes "seerr_disabled") (codes "Seerr integration is disabled") 503
    else if not (is_empty config.configuration_error)
    then seerr_error (codes "seerr_invalid_configuration") config.configuration_error 400
    else if is_empty config.server_url
    then seerr_error (codes "seerr_not_configured") (codes "Seerr server URL is not configured") 503
    else if not (is_caller_mode config)
    then seerr_error (codes "seerr_caller_mode_disabled")
        (codes "Caller-specific Seerr sign-in is not enabled") 403
    else done config

unfoldable pub opaque_id : Text → Text → Result Text
unfolding is_opaque
opaque_id value label =
    if is_opaque (strip value)
    then done (strip value)
    else seerr_error (codes "seerr_invalid_request") (codes "Invalid " ++ label) 400

abbrev pub is_hex_code : ℕ → Bool
is_hex_code c =
    (leb b'A' c && leb c b'F') || (leb b'a' c && leb c b'f') || (leb b'0' c && leb c b'9')

-- `_QUICK_SECRET_RE`
unfoldable pub is_quick_secret : Text → Bool
unfolding all_of
is_quick_secret s = leb 8 (length s) && leb (length s) 128 && all_of is_hex_code s

-- The code and the secret of a new flow.
unfoldable pub initiate_upstream : Result (Option Fields) → Result (Text × Text)
unfolding is_quick_secret
initiate_upstream (raised e) = raised e
initiate_upstream (done none) = invalid_upstream
initiate_upstream (done (some fields)) =
    let code = strip (or_empty (Dict.get fields (codes "code"))) in
    let secret = strip (or_empty (Dict.get fields (codes "secret"))) in
    if is_empty code || ltb 32 (length code) || not (is_quick_secret secret)
    then invalid_upstream
    else done (code, secret)

abbrev pub field_truth : Option Value → Bool
field_truth none = false
field_truth (some v) = truth v

-- Whether a poll says that the user has signed in.
unfoldable pub is_authenticated : Option Fields → Result Bool
unfolding truth
is_authenticated none = invalid_upstream
is_authenticated (some fields) = done (field_truth (Dict.get fields (codes "authenticated")))

abbrev pub is_cookie_code : ℕ → Bool
is_cookie_code c =
    (leb b'A' c && leb c b'Z')
    || (leb b'a' c && leb c b'z')
    || (leb b'0' c && leb c b'9')
    || c == b'_'
    || c == b'.'
    || c == b'-'

unfoldable pub is_cookie_name : Text → Bool
unfolding all_of
is_cookie_name s = leb 1 (length s) && leb (length s) 80 && all_of is_cookie_code s

-- `name=value` of each name that is let through.
unfoldable pub pairs_of : List (Text × Text) → List Text
unfolding is_cookie_name
pairs_of [] = []
pairs_of ((name, value) ∷ morsels) =
    let rest = pairs_of morsels in
    if is_cookie_name name then (name ++ (b'=' ∷ value)) ∷ rest else rest

-- `sep.join(parts)`
unfoldable pub join : Text → List Text → Text
join sep [] = []
join sep (x ∷ []) = x
join sep (x ∷ y ∷ parts) = x ++ (sep ++ join sep (y ∷ parts))

unfoldable pub is_header_safe : Text → Bool
unfolding all_of
is_header_safe value = leb (length value) 8192 && all_of (λ c. not (c == 13) && not (c == 10)) value

abbrev pub loaded : Option (List (Text × Text)) → List Text
loaded none = []
loaded (some morsels) = pairs_of morsels

module _ (load : Text → Option (List (Text × Text))) where
  unfoldable pub cookie_pairs : List Text → List Text
  unfolding is_header_safe pairs_of
  cookie_pairs [] = []
  cookie_pairs (value ∷ values) =
      let rest = cookie_pairs values in
      if is_header_safe value then loaded (load value) ++ rest else rest

  unfoldable pub cookie_header : List Text → Text
  unfolding cookie_pairs join
  cookie_header values =
      let cookie = join (codes "; ") (cookie_pairs (take 10 values)) in
      if leb (length cookie) 16384 then cookie else []

-- `int(value or 0)` by the parameter, and the two names cut to 150 characters.
unfoldable pub identity_of : (Option Value → ℕ) → Fields → Result Identity
identity_of int_of raw =
    let user_id = int_of (Dict.get raw (codes "id")) in
    if user_id == 0
    then invalid_upstream
    else done (record {
      id = user_id;
      display_name = take 150 (strip (or_empty (Dict.get raw (codes "displayName"))));
      username = take 150 (strip (or_empty (Dict.get raw (codes "username"))));
    })
