-- ===== src/Auth/Login/Authentication.antt =====
-- LoginHandler.Handle: the credentials of a user.
use evgo.Shared.{
  ◌≡◌, Bool, true, false, Option, none, some, String, string_eq, ◌==◌, arith, Option-cases, inl,
  inr,
}
use evgo.Auth.Context.{
  Result-cases, ok, AuthContext, set_auth_user, set_generic_error_code, set_auth_parameter, Cache,
}
use evgo.Auth.Login.{
  Users, LoginHandlerConfig, Request, LoginDelay, LoginError, State, delay_cache_key, with_code,
  error_login_failed, error_internal, error_wait_retry, user_not_found, invalid_login_format,
  credentials_not_provided, check_password_hash, check_phash, forward, set_delay, with_user,
  without_user, invalid_login, load_user, handle,
}

-- The stored hash of a user with a password is the given one.
abbrev pub password_matches : Option (String × String) → String → Bool
password_matches none phash = false
password_matches (some (hash, salt)) phash = hash == phash

module _ {U : Type 0} (users : Users U) (cache : Cache LoginDelay)
    (config : LoginHandlerConfig) where
  -- The request names the user, who may log in, and carries the user's password hash.
  pub record HasCredentials (req : Request) (s : State U cache) (u : U) : Type 0 where
    pub named : (req.login == "") ≡ false
    pub well_formed : users.validate_login req.login ≡ true
    pub not_throttled : cache.get s.store (delay_cache_key req.login) ≡ ok none
    pub known : users.find_auth_user req.login ≡ ok (some u)
    pub not_blocked : users.is_blocked u ≡ false
    pub given : (req.phash == "") ≡ false
    pub matches : password_matches (users.password u) req.phash ≡ true

  module _ (req : Request) (s : State U cache) where
    code_user :
        (code : String) (c : AuthContext U)
        → (set_generic_error_code code c).auth_user ≡ c.auth_user
    unfolding set_generic_error_code
    code_user code c = ground arith

    ctx-set_delay : (t : State U cache) → (set_delay users cache config req t).ctx ≡ t.ctx
    unfolding set_delay
    ctx-set_delay t = ground arith

    -- The state after a refusal has the user that it had.
    forward_user :
        (salt : String) (e : Option LoginError) (t : State U cache)
        → (forward users cache config req salt e t).0.ctx.auth_user ≡ t.ctx.auth_user
    unfolding forward set_generic_error_code set_auth_parameter
    forward_user salt e t = ground arith

    without_user_lem :
        (t : State U cache)
        → (without_user users cache config req t).0.ctx.auth_user ≡ t.ctx.auth_user
    unfolding without_user
    without_user_lem t = ground (
      arith,
      forward_user req.random (some user_not_found) t,
      ctx-set_delay t,
      code_user error_login_failed t.ctx,
    )

    invalid_login_lem :
        (t : State U cache)
        → (invalid_login users cache config req t).0.ctx.auth_user ≡ t.ctx.auth_user
    unfolding invalid_login
    invalid_login_lem t = ground (
      arith,
      forward_user req.random (some invalid_login_format) t,
      code_user error_login_failed t.ctx,
    )

    -- With a loaded user the handler takes that user alone, and after the checks.
    record Checked (loaded u : U) : Type 0 where
      same : loaded ≡ u
      not_blocked : users.is_blocked loaded ≡ false
      given : (req.phash == "") ≡ false
      matches : password_matches (users.password loaded) req.phash ≡ true

    with_user_lem :
        (loaded u : U)
        → s.ctx.auth_user ≡ none
        → (with_user users cache config req loaded s).0.ctx.auth_user ≡ some u
        → Checked loaded u
    unfolding with_user check_phash check_password_hash set_auth_user
    with_user_lem loaded u before after = elim (Option-cases (users.password loaded)) [
      | inl not_a_password ↦ ground (
        arith,
        ctx-set_delay (with_code users cache config error_login_failed s),
        code_user error_login_failed s.ctx,
        code_user error_internal s.ctx,
      )
      | inr ((hash, salt), stored) ↦ ground (
        arith,
        ctx-set_delay (with_code users cache config error_login_failed s),
        code_user error_login_failed s.ctx,
        forward_user salt (some credentials_not_provided) s,
      )
    ]

    load_user_lem :
        (u : U)
        → s.ctx.auth_user ≡ none
        → (load_user users cache config req s).0.ctx.auth_user ≡ some u
        → (users.find_auth_user req.login ≡ ok (some u)) × Checked u u
    unfolding load_user
    load_user_lem u before after = elim (Result-cases (users.find_auth_user req.login)) [
      | inl failed ↦ ground (arith, code_user error_internal s.ctx)
      | inr (none, missing) ↦ ground (arith, without_user_lem s)
      | inr (some loaded, found) ↦
          let c = with_user_lem loaded u before (ground arith) in ground (arith, c)
    ]

    -- A login request after which the context has a user, where it had none, named that user by a
    -- well-formed login that is not throttled, the user is not blocked, and the password hash of
    -- the request is the one that is stored for the user.
    pub handle-HasCredentials :
        (u : U)
        → s.ctx.auth_user ≡ none
        → (handle users cache config req s).0.ctx.auth_user ≡ some u
        → HasCredentials req s u
    unfolding handle
    handle-HasCredentials u before after = ground (
      arith,
      invalid_login_lem s,
      code_user error_internal s.ctx,
      code_user error_wait_retry s.ctx,
      load_user_lem u before,
    )

    -- A login request with the credentials of a user whose data can be loaded is accepted without
    -- an error, and the only change is that the user becomes the user of the context.
    pub handle_accepts :
        (u : U)
        → HasCredentials req s u
        → users.fill_auth_user u ≡ true
        → handle users cache config req s
          ≡ (record s { ctx = set_auth_user (some u) s.ctx }, true, none)
    unfolding handle load_user with_user check_phash check_password_hash
    handle_accepts u c filled = ground arith
