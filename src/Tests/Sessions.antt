-- ===== src/Tests/Sessions.antt =====
-- The sessions and the token handler (pkg/auth/auth_session, auth_methods/auth_token) at concrete
-- inputs.
use evgo.Shared.{
  ◌↔◌, ℕ, ◌≡◌, refl, ◌≢◌, Bool, true, false, none, some, [], String, string_eq, ◌==◌, if◌then◌else◌,
  arith,
}
use evgo.Auth.Context.{ok, err, AuthContext}
use evgo.Auth.Sessions.{
  Session, matches, SessionCrud, SessionCrudLaws, find_session, invalidate_session,
  invalidate_user_sessions, update_session_client, update_session_expiration,
}
use evgo.Auth.Sessions.Invalidation.{find-invalidate_user}
use evgo.Auth.Token
use evgo.Auth.Token.{
  AuthTokenHandlerConfig, Token, Users, Request, State, handle, token_name, proceed, renews_access,
  renews_refresh,
}
use evgo.Auth.Token.Authorization.{HasToken, HasSession, looked_up, handle-HasSession}
use evgo.Auth.Token.Logout.{handle_logout}
use evgo.Auth.Token.Renewal.{with_tokens, IsAccessDue, IsRefreshDue, handle_renewal}

-- A database with one session: whether it is valid, and its expiration.
abbrev session_of : Bool → ℕ → Session
session_of valid expiration = record {
  id = "s1";
  user_id = "u1";
  user_login = "alice";
  valid = valid;
  expiration = expiration;
}

abbrev one_session : SessionCrud
one_session = record {
  Db = Bool × ℕ;
  read_session = λ db id. if id == "s1" then ok (some (session_of db.0 db.1)) else ok none;
  create_session = λ db session. err;
  update_expiration = λ db session. ok (db.0, session.expiration);
  invalidate =
      λ db fields. ok (if matches fields (session_of db.0 db.1) then false else db.0, db.1);
  read_client = λ db session_id hash. ok none;
  create_client = λ db client. ok db;
  touch_client = λ db client now. ok db;
}

one_session-SessionCrudLaws : SessionCrudLaws one_session
one_session-SessionCrudLaws = record {
  read-invalidate = λ db db' fields id found r w. ground arith;
  read_id = λ db id session r. ground (arith, string_eq.eqb_iff id "s1");
  read-create_client = λ db db' client id w. ground arith;
  read-touch_client = λ db db' client now id w. ground arith;
}

abbrev context : AuthContext String
context = record { generic_error = none; auth_user = none; auth_parameters = [] }

abbrev start : Bool × ℕ
start = (true, 9000)

find-invalidate_user_example :
    (find_session one_session
      (invalidate_user_sessions one_session "u1" context start).1
      "s1"
      context).1
    ≡ ok (session_of false 9000)
find-invalidate_user_example =
    find-invalidate_user one_session one_session-SessionCrudLaws start "s1" (session_of true 9000)
      context refl "u1" (unfold invalidate_user_sessions in refl)

abbrev users : Users String
users = record {
  find_auth_user = λ login parameters. ok (some login);
  fill_auth_user = λ u. true;
  is_blocked = λ u. false;
  get_id = λ u. "u1";
  display = λ u. u;
  encrypts = λ t. true;
  current_tag = "tag";
  serialize_time = λ t. "time";
}

abbrev config : AuthTokenHandlerConfig
config = record {
  access_token_ttl_seconds = 900;
  refresh_token_ttl_seconds = 43_200;
  access_token_gen_before_seconds = 60;
  auto_prolongate_access = true;
  auto_prolongate_refresh = true;
  refresh_path = "/auth/refresh";
  logout_path = "/auth/logout";
  access_token_name = "access";
  disable_refresh = false;
}

abbrev token : String → Token
token name = record {
  id = "t1";
  exp = 5000;
  user_id = "u1";
  user_display = "alice";
  session_id = "s1";
  tenancy = "";
  token_type = name;
  parameters = [];
}

abbrev request : String → Request
request path = record {
  path = path;
  parameter = λ name. Token.decoded (token name);
  tenancy = none;
  now = 1000;
  client = record {
    client_ip = "ip";
    user_agent = "agent";
    client_hash = "hash";
    new_id = "c1";
    now = 1000;
  };
  access_id = "a1";
  refresh_id = "r1";
}

abbrev state : State String one_session
state = record {
  ctx = context;
  db = start;
  session_id = "";
  session_parameters = [];
  client_id = "";
  auth_timer = none;
  response_tokens = [];
}

abbrev after : String → State String one_session
after path = (handle users one_session config (request path) state).0

passes : (handle users one_session config (request "/auth/refresh") state).2 ≡ none
unfolding handle Token.check_token Token.expired Token.same_tenancy Token.check_session
    Token.check_user proceed Token.add_tokens Token.renews_access Token.gen_access_token
    Token.gen_token Token.add_refresh_token Token.renews_refresh Token.gen_refresh_token
    Token.set_timer find_session update_session_client update_session_expiration
passes = refl

logs_out : (handle users one_session config (request "/auth/logout") state).2 ≡ none
unfolding handle Token.check_token Token.expired Token.same_tenancy Token.check_session
    Token.check_user proceed Token.logout Token.set_timer find_session update_session_client
    invalidate_session
logs_out = refl

handle-HasSession_example :
    (t : Token) × (session : Session) × (user : String) × HasToken users one_session config
      (request "/auth/refresh")
      t
    × HasSession users one_session config (request "/auth/refresh") state t session user
    × (handle users one_session config (request "/auth/refresh") state
        ≡ proceed users one_session config
            (request "/auth/refresh")
            user
            session
            t
            (looked_up users one_session config (request "/auth/refresh") state t))
handle-HasSession_example =
    handle-HasSession users one_session config (request "/auth/refresh") state passes

handle_logout_example :
    ((after "/auth/logout").ctx.auth_user ≡ none)
    × ((handle users one_session config (request "/data") (after "/auth/logout")).2 ≢ none)
handle_logout_example =
    handle_logout users one_session config one_session-SessionCrudLaws (request "/auth/logout")
      state (token "access") refl refl logs_out (request "/data") (after "/auth/logout")
      (token "access") refl refl refl

handle_renewal_example :
    (t : Token) × (session : Session) × (user : String) × HasToken users one_session config
      (request "/auth/refresh")
      t
    × HasSession users one_session config (request "/auth/refresh") state t session user
    × (access : Bool) × (refresh : Bool) × ((access ≡ true)
        ↔ IsAccessDue users one_session config (request "/auth/refresh") t)
    × ((refresh ≡ true) ↔ IsRefreshDue users one_session config (request "/auth/refresh") session)
    × ((after "/auth/refresh").response_tokens
        ≡ with_tokens users one_session config
            (request "/auth/refresh")
            user
            access
            refresh
            session.id
            t.parameters
            [])
handle_renewal_example =
    handle_renewal users one_session config (request "/auth/refresh") state refl passes
