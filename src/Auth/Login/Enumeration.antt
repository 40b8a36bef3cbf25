-- ===== src/Auth/Login/Enumeration.antt =====
-- LoginHandler.Handle: what the first step of a login shows to the client.
use evgo.Shared.{◌≡◌, Bool, true, false, Option, none, some, String, string_eq, ◌==◌, arith, put}
use evgo.Auth.Context.{ok, AuthContext, set_generic_error_code, set_auth_parameter, Cache}
use evgo.Auth.Login
use evgo.Auth.Login.{
  Users, LoginHandlerConfig, Request, LoginDelay, LoginError, Outcome, State, delay_cache_key,
  forward, with_user, without_user, load_user, handle,
}

abbrev failed : {A : Type 0} → Option A → Bool
failed none = false
failed (some e) = true

-- Two outcomes that the client sees alike: the code, whether there is an error, and the response's
-- parameters, where each has its own salt.
pub record LooksAlike {U : Type 0} {cache : Cache LoginDelay} (before : AuthContext U)
    (a b : State U cache × Bool × Option LoginError) : Type 0 where
  pub same_code : a.0.ctx.generic_error ≡ b.0.ctx.generic_error
  pub same_found : a.1 ≡ b.1
  pub same_failure : failed a.2 ≡ failed b.2
  pub same_store : a.0.store ≡ b.0.store
  pub salt_a : (salt : String) × (a.0.ctx.auth_parameters ≡ put "salt" salt before.auth_parameters)
  pub salt_b : (salt : String) × (b.0.ctx.auth_parameters ≡ put "salt" salt before.auth_parameters)

module _ {U : Type 0} (cache : Cache LoginDelay) (config : LoginHandlerConfig) (req : Request)
    (s : State U cache) where
  forward-LooksAlike :
      (users users' : Users U) (salt salt' : String) (e e' : LoginError)
      → LooksAlike s.ctx
          (forward users cache config req salt (some e) s)
          (forward users' cache config req salt' (some e') s)
  unfolding forward set_auth_parameter set_generic_error_code
  forward-LooksAlike users users' salt salt' e e' = record {
    same_code = ground arith;
    same_found = ground arith;
    same_failure = ground arith;
    same_store = ground arith;
    salt_a = (salt, ground arith);
    salt_b = (salt', ground arith);
  }

  -- A login request without a password hash, for a well-formed login that is not throttled, gets
  -- the same error code, the same result and a salt, and leaves the same store, whether the login
  -- is unknown or is that of a user with a password who is not blocked.
  pub handle-LooksAlike :
      (users users' : Users U) (u : U) (hash salt : String)
      → (req.phash == "") ≡ true
      → (req.login == "") ≡ false
      → users.validate_login req.login ≡ true
      → users'.validate_login req.login ≡ true
      → cache.get s.store (delay_cache_key req.login) ≡ ok none
      → users.find_auth_user req.login ≡ ok none
      → users'.find_auth_user req.login ≡ ok (some u)
      → users'.is_blocked u ≡ false
      → users'.password u ≡ some (hash, salt)
      → LooksAlike s.ctx (handle users cache config req s) (handle users' cache config req s)
  unfolding handle load_user with_user without_user
  handle-LooksAlike users users' u hash salt no_hash named formed formed' free unknown known allowed
        stored =
      rw
        (
          named, formed, formed', free, unknown, known, allowed, stored, no_hash, handle, load_user,
          with_user, without_user,
        )
        (forward-LooksAlike users users' req.random salt Login.user_not_found
          Login.credentials_not_provided)
