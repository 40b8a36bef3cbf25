-- ===== src/Auth/Sms/Guesses.antt =====
-- AuthSms.Handle: requests with a wrong code, and the count of tries.
use evgo.Shared.{
  ◌+◌, ◌*◌, ◌≡◌, refl, ◌∙◌, ◌⊎◌, inl, inr, ◌≢◌, true, false, none, some, String, string_eq, ◌==◌,
  arith, ltb, leb,
}
use evgo.Auth.Context.{Result-cases, ok, set_generic_error_code, Cache, CacheLaws}
use evgo.Auth.Sms.{
  SmsCacheToken, SmsToken, CacheItem, token, AuthSmsConfig, decoded, Request, Services, State,
  sms_token_cache_key, hmac_input, invalid_sms_code, set_token_failed, too_many_tries, nanoseconds,
  set_token, wrong_code, check_code, find_cache_token, handle,
}
use evgo.Auth.Sms.Acceptance.{handle-with_code, with_code-find}

module _ {U : Type 0} (services : Services U) (cache : Cache CacheItem)
    (config : AuthSmsConfig) where
  -- A request of the user `u` with a code that may be wrong, for a token that the cache has.
  pub record IsGuess (req : Request) (s : State U cache) (u : U) (t : SmsToken) (c : SmsCacheToken)
      : Type 0 where
    pub checked : (m : String) × (req.content_check ≡ ok (m, false))
    pub authenticated : s.ctx.auth_user ≡ some u
    pub given : (req.code == "") ≡ false
    pub names : req.token_parameter ≡ decoded t
    pub not_expired : ltb t.exp req.now ≡ false
    pub cached : cache.get s.store (sms_token_cache_key t.id) ≡ ok (some (token c))

  -- After a guess the token that it used is gone, and only a wrong guess has put another one into the
  -- cache, under the new id, which has the same code and one try more.
  pub record IsCounted (req : Request) (t : SmsToken) (c : SmsCacheToken) (s' : State U cache)
      : Type 0 where
    pub used : cache.get s'.store (sms_token_cache_key t.id) ≡ ok none
    pub replaced :
        cache.get s'.store (sms_token_cache_key req.new_id)
        ≡ ok (some (token (record c { try = c.try + 1 })))

  module _ (req : Request) (s : State U cache) (u : U) (t : SmsToken) (c : SmsCacheToken) where
    handle-check_code :
        IsGuess req s u t c
        → handle services cache config req s
          ≡ check_code services cache config req (services.get_id u) c (sms_token_cache_key t.id) s
    unfolding find_cache_token
    handle-check_code g =
        handle-with_code services cache config req s g.checked.0 u g.checked.1 g.authenticated
          g.given
        ∙ with_code-find services cache config req s u t g.names g.not_expired
        ∙ ground arith

    -- With a cache that obeys its laws, a request with a code, right or wrong, for a cached token
    -- whose tries have reached the maximum is refused, the token is removed, and the user of the
    -- context stays.
    pub handle-too_many_tries :
        CacheLaws cache
        → IsGuess req s u t c
        → leb config.max_tries c.try ≡ true
        → let (s', found, e) = handle services cache config req s in
          (e ≡ some too_many_tries)
          × (cache.get s'.store (sms_token_cache_key t.id) ≡ ok none)
          × (s'.ctx.auth_user ≡ s.ctx.auth_user)
    unfolding check_code set_generic_error_code
    handle-too_many_tries laws g many =
        let e = handle-check_code g in
        rw (e, check_code, many)
          (refl, laws.get-unset s.store (sms_token_cache_key t.id), ground arith)

    -- With a cache that obeys its laws, a wrong code for a cached token with tries left and the
    -- right checksum removes that token and puts the same token with one try more under the new id,
    -- which the response names with a new expiration; or the new token could not be written, and
    -- the response keeps its token.
    pub handle-IsCounted :
        CacheLaws cache
        → IsGuess req s u t c
        → leb config.max_tries c.try ≡ false
        → services.hmac_check (hmac_input services cache config req (services.get_id u)) c.checksum
          ≡ true
        → (req.code == c.code) ≡ false
        → sms_token_cache_key req.new_id ≢ sms_token_cache_key t.id
        → let (s', found, e) = handle services cache config req s in
          ((e ≡ some invalid_sms_code)
            × IsCounted req t c s'
            × (s'.response_token
                ≡ some (record {
                  id = req.new_id;
                  exp = req.now + config.token_ttl_seconds * nanoseconds;
                })))
          ⊎ ((e ≡ some set_token_failed) × (s'.response_token ≡ s.response_token))
    unfolding wrong_code set_token check_code
    handle-IsCounted laws g few same wrong fresh =
        let old = cache.unset s.store (sms_token_cache_key t.id) in
        let c' : SmsCacheToken = record c { try = c.try + 1 } in
        rw (handle-check_code g, check_code, few, same, wrong)
          elim (Result-cases
            (cache.set old (sms_token_cache_key req.new_id) (token c') config.token_ttl_seconds)) [
              | inl failed ↦ inr (ground arith)
              | inr (new, written) ↦
                  let back =
                    laws.get-set old new (sms_token_cache_key req.new_id) (token c')
                      config.token_ttl_seconds written in
                  let gone =
                    laws.get-set_ne old new (sms_token_cache_key req.new_id)
                      (sms_token_cache_key t.id) (token c') config.token_ttl_seconds fresh written
                    ∙ laws.get-unset s.store (sms_token_cache_key t.id) in
                  ground arith
            ]
