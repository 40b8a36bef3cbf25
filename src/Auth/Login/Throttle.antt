-- ===== src/Auth/Login/Throttle.antt =====
-- LoginHandler.Handle and setDelay: the delay after a failed login.
use mathlib.Core.Path.{ap₂}
use evgo.Shared.{
  ◌≡◌, refl, ap, sym, ◌∙◌, Bool, true, false, not, some, string_eq, ◌==◌, arith, nat_beq,
}
use evgo.Auth.Context.{ok, Cache, CacheLaws}
use evgo.Auth.Login.{
  Users, LoginHandlerConfig, Request, LoginDelay, login_delay, LoginError, user_not_found,
  invalid_password, login_blocked, wait_for_delay, error_wait_retry, with_code, State,
  delay_cache_key, check_phash, forward, set_delay, with_user, without_user, invalid_login,
  load_user, handle,
}

-- The refusals after which the next attempt has to wait: a wrong hash, a blocked user, and an
-- unknown user if a hash was given.
abbrev pub delays : LoginError → Bool → Bool
delays invalid_password given = true
delays login_blocked given = true
delays user_not_found given = given
delays _ given = false

module _ {U : Type 0} (users : Users U) (cache : Cache LoginDelay)
    (config : LoginHandlerConfig) where
  handle-delayed :
      (req : Request) (s : State U cache)
      → (req.login == "") ≡ false
      → users.validate_login req.login ≡ true
      → cache.get s.store (delay_cache_key req.login) ≡ ok (some login_delay)
      → handle users cache config req s
        ≡ (with_code users cache config error_wait_retry s, true, some wait_for_delay)
  unfolding handle
  handle-delayed req s named formed delayed = ground arith

  module _ (req : Request) (s : State U cache) {t : cache.Store}
      (throttles : nat_beq config.throttle_delay_seconds 0 ≡ false)
      (written : cache.set s.store
          (delay_cache_key req.login)
          login_delay
          config.throttle_delay_seconds
        ≡ ok t) where
    abbrev given : Bool
    given = not (req.phash == "")

    store-set_delay :
        (u : State U cache) → u.store ≡ s.store → (set_delay users cache config req u).store ≡ t
    unfolding set_delay
    store-set_delay u h = rw (throttles, set_delay, h, written)

    store-load_user :
        (e : LoginError)
        → (load_user users cache config req s).2 ≡ some e
        → delays e given ≡ true
        → (load_user users cache config req s).0.store ≡ t
    unfolding load_user with_user without_user check_phash forward
    store-load_user e failed d = ground (
      arith,
      store-set_delay s refl,
      store-set_delay (with_code users cache config "login_failed" s) refl,
    )

    reaches_load :
        (e : LoginError)
        → (handle users cache config req s).2 ≡ some e
        → delays e given ≡ true
        → ((req.login == "") ≡ false)
          × (users.validate_login req.login ≡ true)
          × (handle users cache config req s ≡ load_user users cache config req s)
    unfolding handle invalid_login forward
    reaches_load e failed d = ground arith

    -- After a login that is refused for a wrong hash, a blocked user, or an unknown user with a
    -- hash given, whose delay is written to a cache that obeys its laws, any next request for the
    -- same login against that store is told to retry later, and changes neither the user nor the
    -- store.
    pub handle-throttled :
        (laws : CacheLaws cache)
        → (e : LoginError) → (handle users cache config req s).2 ≡ some e
        → delays e given ≡ true
        → (req' : Request) → req'.login ≡ req.login
        → (s' : State U cache) → s'.store ≡ (handle users cache config req s).0.store
        → handle users cache config req' s'
          ≡ (with_code users cache config error_wait_retry s', true, some wait_for_delay)
    handle-throttled laws e failed d req' same s' kept =
        let (named, formed, as_load) = reaches_load e failed d in
        let stored : s'.store ≡ t =
          kept
          ∙ ap (λ o. o.0.store) as_load
          ∙ store-load_user e (sym (ap (λ o. o.2) as_load) ∙ failed) d in
        let delayed : cache.get s'.store (delay_cache_key req'.login) ≡ ok (some login_delay) =
          ap₂ (λ st l. cache.get st (delay_cache_key l)) stored same
          ∙ laws.get-set s.store t (delay_cache_key req.login) login_delay
              config.throttle_delay_seconds written in
        handle-delayed req' s' (ap (λ l. l == "") same ∙ named)
          (ap users.validate_login same ∙ formed) delayed
