-- ===== src/Auth/Sms/Sending.antt =====
-- AuthSms.Handle: the messages that are handed to the SMS manager.
use evgo.Shared.{
  ◌+◌, ◌≡◌, refl, ◌⊎◌, inl, inr, true, false, none, some, ◌∷◌, String, string_eq, ◌==◌, arith,
  Option-cases, if◌then◌else◌,
}
use evgo.Auth.Context.{Result-cases, ok, Cache}
use evgo.Auth.Sms.{
  SmsCacheToken, SmsToken, CacheItem, delay, token, AuthSmsConfig, TokenParameter, missing,
  undecodable, decoded, Request, Services, State, sms_delay_cache_key, sms_token_cache_key,
  hmac_input, set_token, wrong_code, check_code, find_cache_token, with_code, save_delay, send_code,
  without_code, with_auth_user, handle,
}

module _ {U : Type 0} (services : Services U) (cache : Cache CacheItem)
    (config : AuthSmsConfig) where
  -- The request may have a code sent: it has none itself, its user has a phone and no delay.
  pub record MaySend (req : Request) (s : State U cache) (u : U) (phone : String) : Type 0 where
    pub authenticated : s.ctx.auth_user ≡ some u
    pub without_code : (req.code == "") ≡ true
    pub no_delay : cache.get s.store (sms_delay_cache_key (services.get_id u)) ≡ ok none
    pub phone_of_user : services.phone u ≡ some phone
    pub phone_is_set : (phone == "") ≡ false

  module _ (req : Request) where
    set_token-sent :
        (c : SmsCacheToken) (id : String) (s : State U cache)
        → (set_token services cache config req c id s).0.sent ≡ s.sent
    unfolding set_token
    set_token-sent c id s = ground arith

    wrong_code-sent :
        (c : SmsCacheToken) (k : String) (s : State U cache)
        → (wrong_code services cache config req c k s).0.sent ≡ s.sent
    unfolding wrong_code
    wrong_code-sent c k s = ground (
      arith,
      set_token-sent (record c { try = c.try + 1 }) req.new_id
          (record s { store = cache.unset s.store k }),
    )

    check_code-sent :
        (id : String) (c : SmsCacheToken) (k : String) (s : State U cache)
        → (check_code services cache config req id c k s).0.sent ≡ s.sent
    unfolding check_code
    check_code-sent id c k s = ground (arith, wrong_code-sent c k s)

    find_cache_token-sent :
        (id : String) (t : SmsToken) (s : State U cache)
        → (find_cache_token services cache config req id t s).0.sent ≡ s.sent
    unfolding find_cache_token
    find_cache_token-sent id t s =
        elim (Result-cases (cache.get s.store (sms_token_cache_key t.id))) [
          | inl failed ↦ ground arith
          | inr (none, missed) ↦ ground arith
          | inr (some (delay d), found) ↦ ground arith
          | inr (some (token c), found) ↦
              ground (arith, check_code-sent id c (sms_token_cache_key t.id) s)
        ]

    with_code-sent :
        (id : String) (p : TokenParameter) (s : State U cache)
        → req.token_parameter ≡ p
        → (with_code services cache config req id s).0.sent ≡ s.sent
    unfolding with_code
    with_code-sent id missing s e = ground arith
    with_code-sent id undecodable s e = ground arith
    with_code-sent id (decoded t) s e = ground (arith, find_cache_token-sent id t s)

    send_code-sent :
        (m id phone : String) (s : State U cache)
        → (send_code services cache config req m id phone s).0.sent ≡ (phone, req.new_code) ∷ s.sent
    unfolding send_code save_delay
    send_code-sent m id phone s =
        elim (Result-cases (services.send (if m == "" then "code %s" else m) req.new_code phone)) [
          | inl failed ↦ rw (send_code, failed)
          | inr (sms_id, done) ↦
              let c : SmsCacheToken = record {
                try = 1;
                code = req.new_code;
                checksum = services.hmac_sum (hmac_input services cache config req id);
                sms_id = sms_id;
              } in
              ground (
                arith,
                set_token-sent c req.new_id (record s { sent = (phone, req.new_code) ∷ s.sent }),
              )
        ]

    -- One request to the SMS handler hands at most one message to the SMS manager, and that is the
    -- new code to the phone of the authenticated user, for a request without a code of its own,
    -- while the cache has no delay for the user.
    pub handle-sent :
        (s : State U cache)
        → ((handle services cache config req s).0.sent ≡ s.sent)
          ⊎ ((u : U) × (phone : String) × MaySend req s u phone
              × ((handle services cache config req s).0.sent ≡ (phone, req.new_code) ∷ s.sent))
    unfolding handle with_auth_user without_code
    handle-sent s = elim (Result-cases req.content_check) [
      | inl failed ↦ ground arith
      | inr ((m, true), checked) ↦ ground arith
      | inr ((m, false), checked) ↦ elim (Option-cases s.ctx.auth_user) [
        | inl nobody ↦ ground arith
        | inr (u, somebody) ↦ elim (Option-cases (services.phone u)) [
          | inl missed ↦
              ground (arith, with_code-sent (services.get_id u) req.token_parameter s refl)
          | inr (phone, found) ↦ ground (
            arith,
            with_code-sent (services.get_id u) req.token_parameter s refl,
            send_code-sent m (services.get_id u) phone s,
          )
        ]
      ]
    ]
