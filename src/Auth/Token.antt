-- ===== src/Auth/Token.antt =====
-- pkg/auth/auth_methods/auth_token/auth_token.go: access by a token, its renewal and the logout. The
-- users, the encryption of tokens and the database are parameters; times are nanoseconds.
pub mod Authorization
pub mod Logout
pub mod Renewal
use evgo.Shared.{
  ℕ, ◌+◌, ◌-◌, ◌*◌, Bool, true, false, not, ◌&&◌, ◌||◌, Option, none, some, List, [], ◌∷◌, String,
  string_eq, ◌==◌, if◌then◌else◌, ltb, leb,
}
use evgo.Auth.Context.{
  Result, ok, err, AuthContext, set_generic_error_code, set_auth_parameter, set_auth_user,
}
use evgo.Auth.Sessions.{
  Session, SessionCrud, ClientRequest, find_session, invalidate_session, update_session_expiration,
  update_session_client,
}

pub record AuthTokenHandlerConfig : Type 0 where
  pub access_token_ttl_seconds : ℕ
  pub refresh_token_ttl_seconds : ℕ
  pub access_token_gen_before_seconds : ℕ
  pub auto_prolongate_access : Bool
  pub auto_prolongate_refresh : Bool
  pub refresh_path : String
  pub logout_path : String
  pub access_token_name : String
  pub disable_refresh : Bool

pub record Token : Type 0 where
  pub id : String
  pub exp : ℕ
  pub user_id : String
  pub user_display : String
  pub session_id : String
  pub tenancy : String
  pub token_type : String
  pub parameters : List (String × String)

-- What `GetAuthParameter` or `GetAndDecodeBearer` makes of the token of a given name.
pub data TokenParameter : Type 0 where
  missing undecodable : TokenParameter
  decoded : Token → TokenParameter

pub data TokenError : Type 0 where
  refresh_disabled bad_token token_missing token_expired token_type_mismatch invalid_tenancy :
      TokenError
  session_not_loaded session_invalidated session_expired user_not_loaded user_not_found
        login_blocked :
      TokenError
  user_not_filled client_not_updated access_not_generated refresh_not_generated
        session_not_invalidated :
      TokenError

-- the users, and the encryption of tokens; `serialize_time` is utils.SerializeTime
pub record Users (U : Type 0) : Type 0 where
  pub find_auth_user : String → List (String × String) → Result (Option U)
  pub fill_auth_user : U → Bool
  pub is_blocked : U → Bool
  pub get_id : U → String
  pub display : U → String
  pub encrypts : Token → Bool
  pub current_tag : String
  pub serialize_time : ℕ → String

-- `tenancy` is the id of the tenancy of the request, if it has one; `access_id` and `refresh_id` are
-- the random ids of the tokens that it may generate.
pub record Request : Type 0 where
  pub path : String
  pub parameter : String → TokenParameter
  pub tenancy : Option String
  pub now : ℕ
  pub client : ClientRequest
  pub access_id : String
  pub refresh_id : String

pub record State (U : Type 0) (crud : SessionCrud) : Type 0 where
  pub ctx : AuthContext U
  pub db : crud.Db
  pub session_id : String
  pub session_parameters : List (String × String)
  pub client_id : String
  pub auth_timer : Option ℕ
  pub response_tokens : List Token

abbrev pub nanoseconds : ℕ
nanoseconds = 1_000_000_000

abbrev pub refresh_token_name : String
refresh_token_name = "refresh"

abbrev pub error_internal : String
error_internal = "internal_server_error"

abbrev pub error_session_expired : String
error_session_expired = "session_expired"

abbrev pub is_set {ℓ} : {A : Type ℓ} → Option A → Bool
is_set none = false
is_set (some a) = true

abbrev pub or_empty : Option String → String
or_empty none = ""
or_empty (some s) = s

-- Neither the request nor the token has a tenancy, or both have the same.
unfoldable pub same_tenancy : Option String → String → Bool
same_tenancy none token_tenancy = token_tenancy == ""
same_tenancy (some tenancy) token_tenancy = token_tenancy == tenancy

unfoldable pub expired : Token → ℕ → Bool
expired token now = ltb token.exp now

module _ {U : Type 0} (users : Users U) (crud : SessionCrud) (config : AuthTokenHandlerConfig) where
  abbrev pub Outcome : Type 0
  Outcome = State U crud × Bool × Option TokenError

  abbrev pub with_code : String → State U crud → State U crud
  with_code code s = record s { ctx = set_generic_error_code code s.ctx }

  abbrev pub fail : String → TokenError → State U crud → Outcome
  fail code e s = (with_code code s, true, some e)

  abbrev pub is_refresh : Request → Bool
  is_refresh req = req.path == config.refresh_path

  abbrev pub token_name : Request → String
  token_name req = if is_refresh req then refresh_token_name else config.access_token_name

  abbrev with_parameter : String → String → State U crud → State U crud
  with_parameter name value s = record s { ctx = set_auth_parameter name value s.ctx }

  -- `GenToken` for the user of the context: the state, and whether there was no error
  unfoldable pub gen_token :
      Request → U → String → String → ℕ → String → Bool → State U crud → State U crud × Bool
  gen_token req user id name seconds expire_name append_tag s =
      let token : Token = record {
        id = id;
        exp = req.now + seconds * nanoseconds;
        user_id = users.get_id user;
        user_display = users.display user;
        session_id = s.session_id;
        tenancy = or_empty req.tenancy;
        token_type = name;
        parameters = s.session_parameters;
      } in
      let s = if append_tag then with_parameter "tag" users.current_tag s else s in
      let s = with_parameter expire_name (users.serialize_time token.exp) s in
      if users.encrypts token
      then (record s { response_tokens = token ∷ s.response_tokens }, true)
      else (s, false)

  unfoldable pub gen_access_token : Request → U → State U crud → State U crud × Bool
  gen_access_token req user s =
      gen_token req user req.access_id config.access_token_name config.access_token_ttl_seconds
        "access-expire" true s

  -- `SessionExpiration`
  abbrev pub session_expiration : ℕ → ℕ
  session_expiration now = now + config.refresh_token_ttl_seconds * nanoseconds

  -- `GenRefreshToken`: the state, the session with its expiration, and whether there was no error
  unfoldable pub gen_refresh_token :
      Request → U → Session → State U crud → State U crud × Session × Bool
  gen_refresh_token req user session s =
      if config.disable_refresh
      then (s, session, true)
      else let session = record session { expiration = session_expiration req.now } in
        let (ctx', db', updated) = update_session_expiration crud session s.ctx s.db in
        let s = record s { ctx = ctx'; db = db' } in
        if updated
        then (let (s', done) =
              gen_token req user req.refresh_id refresh_token_name config.refresh_token_ttl_seconds
                "refresh-expire" false s in
            (s', session, done))
        else (s, session, false)

  -- the access token is renewed on refresh, and shortly before it expires
  unfoldable pub renews_access : Request → Token → Bool
  renews_access req token =
      is_refresh req
      || config.auto_prolongate_access
        && ltb token.exp (req.now + config.access_token_gen_before_seconds * nanoseconds)

  unfoldable pub renews_refresh : Request → Session → Bool
  renews_refresh req session =
      config.auto_prolongate_refresh
      && (is_refresh req
          || ltb session.expiration (req.now + config.access_token_ttl_seconds * nanoseconds))

  -- The timer of the request ends with the session or with the token, whichever comes first.
  unfoldable pub set_timer : Session → Token → State U crud → Outcome
  set_timer session token s =
      let expire_at = if ltb token.exp session.expiration then token.exp else session.expiration in
      (record s { auth_timer = some expire_at }, true, none)

  unfoldable pub add_refresh_token : Request → U → Session → Token → State U crud → Outcome
  add_refresh_token req user session token s =
      if renews_refresh req session
      then (let (s', session', done) = gen_refresh_token req user session s in
          if done
          then set_timer session' token s'
          else fail error_internal refresh_not_generated s')
      else set_timer session token s

  unfoldable pub add_tokens : Request → U → Session → Token → State U crud → Outcome
  add_tokens req user session token s =
      if renews_access req token
      then (let (s', done) = gen_access_token req user s in
          if done
          then add_refresh_token req user session token s'
          else fail error_internal access_not_generated s')
      else add_refresh_token req user session token s

  unfoldable pub logout : Request → Session → Token → State U crud → Outcome
  logout req session token s =
      let (ctx', db', done) =
        invalidate_session crud session.user_id session.id (set_auth_user none s.ctx) s.db in
      let s = record s { ctx = ctx'; db = db' } in
      if done then set_timer session token s else fail error_internal session_not_invalidated s

  -- `Handle` after the checks
  unfoldable pub proceed : Request → U → Session → Token → State U crud → Outcome
  proceed req user session token s =
      let s = record s { ctx = set_auth_user (some user) s.ctx } in
      if not (users.fill_auth_user user)
      then (s, true, some user_not_filled)
      else let s = record s { session_id = session.id; session_parameters = token.parameters } in
        let (ctx', db', client) =
          update_session_client crud req.client session.id (users.get_id user) s.ctx s.db in
        let s = record s { ctx = ctx'; db = db' } in
        elim client [
          | none ↦ fail error_internal client_not_updated s
          | some client_id ↦
              let s = record s { client_id = client_id } in
              if req.path == config.logout_path
              then logout req session token s
              else add_tokens req user session token s
        ]

  unfoldable pub check_user : Request → Session → Token → State U crud → Outcome
  check_user req session token s = elim (users.find_auth_user session.user_login token.parameters) [
    | err ↦ fail error_internal user_not_loaded s
    | ok none ↦ fail "unknown_user" user_not_found s
    | ok (some user) ↦
        if users.is_blocked user
        then fail error_session_expired login_blocked s
        else proceed req user session token s
  ]

  unfoldable pub check_session : Request → Token → State U crud → Outcome
  check_session req token s =
      let (ctx', found) = find_session crud s.db token.session_id s.ctx in
      let s = record s { ctx = ctx' } in
      elim found [
        | err ↦ fail error_session_expired session_not_loaded s
        | ok session ↦
            if not session.valid
            then fail error_session_expired session_invalidated s
            else if ltb session.expiration req.now
            then fail error_session_expired session_expired s
            else check_user req session token s
      ]

  unfoldable pub check_token : Request → Token → State U crud → Outcome
  check_token req token s =
      if expired token req.now
      then fail (if is_refresh req then error_session_expired else "auth_token_expired")
          token_expired s
      else if not (token.token_type == token_name req)
      then fail "auth_token_invalid" token_type_mismatch s
      else if not (same_tenancy req.tenancy token.tenancy)
      then fail error_session_expired invalid_tenancy s
      else check_session req token s

  -- `AuthTokenHandler.Handle`: the state after it, whether the method was found, and the error
  unfoldable pub handle : Request → State U crud → Outcome
  handle req s =
      if is_refresh req && config.disable_refresh
      then fail "refresh_disabled" refresh_disabled s
      else elim (req.parameter (token_name req)) [
        | missing ↦ (s, true, some token_missing)
        | undecodable ↦ fail "auth_token_invalid" bad_token s
        | decoded token ↦ check_token req token s
      ]
