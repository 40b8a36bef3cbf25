-- ===== src/Auth/Login.antt =====
-- pkg/auth/auth_methods/auth_login_phash/auth_login_phash.go: login by a password hash, with a
-- delay after a failure. The users and the cache are parameters.
pub mod Authentication
pub mod Throttle
pub mod Enumeration
use evgo.Shared.{
  ℕ, Bool, true, false, not, ◌&&◌, Option, none, some, List, [], String, string_eq, ◌==◌, nat_eq,
  if◌then◌else◌, nat_beq,
}
use Prim.Native.String.{◌++◌}
use evgo.Auth.Context.{
  Result, ok, err, AuthContext, set_generic_error_code, set_auth_parameter, set_auth_user, Cache,
}

-- auth_session.AuthUserManager and the methods of the users that it finds. `password` is `none` for
-- a user that is not a UserWithPassword, else the hash and the salt.
pub record Users (U : Type 0) : Type 0 where
  pub validate_login : String → Bool
  pub find_auth_user : String → Result (Option U)
  pub fill_auth_user : U → Bool
  pub is_blocked : U → Bool
  pub password : U → Option (String × String)

pub record LoginHandlerConfig : Type 0 where
  pub throttle_delay_seconds : ℕ
  pub negotiate_path : String

-- What the handler reads of the request, and the string that `GenerateString` makes for it.
pub record Request : Type 0 where
  pub phash : String
  pub path : String
  pub login : String
  pub random : String

pub data LoginError : Type 0 where
  invalid_login_format cache_failed wait_for_delay failed_to_load_user user_not_found
        login_blocked :
      LoginError
  not_a_password_user invalid_password failed_to_fill_user credentials_not_provided : LoginError

-- LoginDelay: the time of creation, which the handler does not read
pub data LoginDelay : Type 0 where
  login_delay : LoginDelay

abbrev pub error_login_failed : String
error_login_failed = "login_failed"

abbrev pub error_credentials_required : String
error_credentials_required = "login_credentials_required"

abbrev pub error_wait_retry : String
error_wait_retry = "wait_retry"

abbrev pub error_internal : String
error_internal = "internal_server_error"

unfoldable pub delay_cache_key : String → String
delay_cache_key user_id = "login-delay/" ++ user_id

unfoldable pub check_password_hash : String → String → Bool
check_password_hash password_hash phash = password_hash == phash

pub record State (U : Type 0) (cache : Cache LoginDelay) : Type 0 where
  pub ctx : AuthContext U
  pub store : cache.Store

module _ {U : Type 0} (users : Users U) (cache : Cache LoginDelay)
    (config : LoginHandlerConfig) where
  abbrev pub Outcome : Type 0
  Outcome = State U cache × Bool × Option LoginError

  abbrev pub with_code : String → State U cache → State U cache
  with_code code s = record s { ctx = set_generic_error_code code s.ctx }

  abbrev pub with_salt : String → State U cache → State U cache
  with_salt salt s = record s { ctx = set_auth_parameter "salt" salt s.ctx }

  abbrev written : cache.Store → Result cache.Store → cache.Store
  written old (ok new) = new
  written old err = old

  -- a failure to write is logged alone
  unfoldable pub set_delay : Request → State U cache → State U cache
  set_delay req s =
      let key = delay_cache_key req.login in
      if nat_beq config.throttle_delay_seconds 0 then s else record s {
        store = written s.store (cache.set s.store key login_delay config.throttle_delay_seconds);
      }

  -- The client is sent on to the second step with a salt: a random one, or the user's.
  unfoldable pub forward : Request → String → Option LoginError → State U cache → Outcome
  forward req salt e s =
      let s = with_salt salt s in
      if req.path == config.negotiate_path
      then (s, true, none)
      else (with_code error_credentials_required s, true, e)

  -- the part of `Handle` in which the hash is checked
  unfoldable pub check_phash : Request → U → String → State U cache → Outcome
  check_phash req user password_hash s =
      if not (check_password_hash password_hash req.phash)
      then (set_delay req (with_code error_login_failed s), true, some invalid_password)
      else let s = record s { ctx = set_auth_user (some user) s.ctx } in
        if users.fill_auth_user user then (s, true, none) else (s, true, some failed_to_fill_user)

  -- the part of `Handle` after the user is loaded
  unfoldable pub with_user : Request → U → State U cache → Outcome
  with_user req user s =
      if users.is_blocked user
      then (set_delay req (with_code error_login_failed s), true, some login_blocked)
      else elim (users.password user) [
        | none ↦ (with_code error_internal s, true, some not_a_password_user)
        | some (hash, salt) ↦
            if not (req.phash == "")
            then check_phash req user hash s
            else forward req salt (some credentials_not_provided) s
      ]

  unfoldable pub without_user : Request → State U cache → Outcome
  without_user req s =
      if not (req.phash == "")
      then (with_code error_login_failed (set_delay req s), true, some user_not_found)
      else forward req req.random (some user_not_found) s

  unfoldable pub invalid_login : Request → State U cache → Outcome
  invalid_login req s =
      if not (req.phash == "")
      then (with_code error_login_failed s, true, some invalid_login_format)
      else forward req req.random (some invalid_login_format) s

  unfoldable pub load_user : Request → State U cache → Outcome
  load_user req s = elim (users.find_auth_user req.login) [
    | err ↦ (with_code error_internal s, true, some failed_to_load_user)
    | ok none ↦ without_user req s
    | ok (some user) ↦ with_user req user s
  ]

  -- `LoginHandler.Handle`: the state after it, whether the method was found, and the error
  unfoldable pub handle : Request → State U cache → Outcome
  handle req s =
      if req.login == ""
      then (s, false, none)
      else if not (users.validate_login req.login)
      then invalid_login req s
      else elim (cache.get s.store (delay_cache_key req.login)) [
        | err ↦ (with_code error_internal s, true, some cache_failed)
        | ok (some delay) ↦ (with_code error_wait_retry s, true, some wait_for_delay)
        | ok none ↦ load_user req s
      ]
