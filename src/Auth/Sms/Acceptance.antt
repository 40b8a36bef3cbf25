-- ===== src/Auth/Sms/Acceptance.antt =====
-- AuthSms.Handle: the requests that pass, and what they leave in the cache.
use evgo.Shared.{
  ◌≡◌, refl, ap, sym, ◌∙◌, ◌⊎◌, inl, inr, ◌≢◌, true, false, none, some, String, string_eq, ◌==◌,
  arith, Bool-cases, Option-cases, ltb, leb,
}
use evgo.Auth.Context.{Result-cases, ok, Cache, CacheLaws}
use evgo.Auth.Sms.{
  SmsCacheToken, SmsToken, CacheItem, delay, token, AuthSmsConfig, TokenParameter, missing,
  undecodable, decoded, Request, Services, State, sms_delay_cache_key, sms_token_cache_key,
  hmac_input, cache_token_expired, fail, wrong_code, check_code, find_cache_token, with_code,
  save_delay, send_code, without_code, with_auth_user, handle,
}

module _ {U : Type 0} (services : Services U) (cache : Cache CacheItem)
    (config : AuthSmsConfig) where
  -- The code of the request is the one that was sent for the very same content to the user, it has not
  -- expired, and it was not guessed too often.
  pub record IsConfirmed (req : Request) (s : State U cache) (u : U) (t : SmsToken)
      (c : SmsCacheToken) : Type 0 where
    pub authenticated : s.ctx.auth_user ≡ some u
    pub given : (req.code == "") ≡ false
    pub names : req.token_parameter ≡ decoded t
    pub not_expired : ltb t.exp req.now ≡ false
    pub cached : cache.get s.store (sms_token_cache_key t.id) ≡ ok (some (token c))
    pub tries_left : leb config.max_tries c.try ≡ false
    pub same_content :
        services.hmac_check (hmac_input services cache config req (services.get_id u)) c.checksum
        ≡ true
    pub right_code : (req.code == c.code) ≡ true

  -- What an accepted code leaves in the store: neither the token nor the delay of the user.
  abbrev pub spent : State U cache → U → SmsToken → State U cache
  spent s u t = record s {
    store =
        cache.unset (cache.unset s.store (sms_token_cache_key t.id))
          (sms_delay_cache_key (services.get_id u));
  }

  Token-cases :
      (p : TokenParameter)
      → (p ≡ missing) ⊎ ((p ≡ undecodable) ⊎ ((t : SmsToken) × (p ≡ decoded t)))
  Token-cases missing = inl refl
  Token-cases undecodable = inr (inl refl)
  Token-cases (decoded t) = inr (inr (t, refl))

  module _ (req : Request) where
    wrong_code_fails :
        (c : SmsCacheToken) (k : String) (s : State U cache)
        → (wrong_code services cache config req c k s).2 ≢ none
    unfolding wrong_code
    wrong_code_fails c k s passed = ground arith

    send_code_fails :
        (m id phone : String) (s : State U cache)
        → (send_code services cache config req m id phone s).2 ≢ none
    unfolding send_code save_delay
    send_code_fails m id phone s passed = ground arith

    without_code_fails :
        (m : String) (u : U) (s : State U cache)
        → (without_code services cache config req m u s).2 ≢ none
    unfolding without_code
    without_code_fails m u s passed = elim (Option-cases (services.phone u)) [
      | inl missed ↦ ground arith
      | inr (phone, found) ↦ ground (arith, send_code_fails m (services.get_id u) phone s)
    ]

    find_cache_token_lem :
        (id : String) (t : SmsToken) (s : State U cache)
        → (find_cache_token services cache config req id t s).2 ≡ none
        → (c : SmsCacheToken) × (cache.get s.store (sms_token_cache_key t.id) ≡ ok (some (token c)))
          × (leb config.max_tries c.try ≡ false)
          × (services.hmac_check (hmac_input services cache config req id) c.checksum ≡ true)
          × ((req.code == c.code) ≡ true)
    unfolding find_cache_token check_code
    find_cache_token_lem id t s passed =
        elim (Result-cases (cache.get s.store (sms_token_cache_key t.id))) [
          | inl failed ↦ ground arith
          | inr (none, missed) ↦ ground arith
          | inr (some (delay d), found) ↦ ground arith
          | inr (some (token c), found) ↦
              ground (arith, wrong_code_fails c (sms_token_cache_key t.id) s)
        ]

    with_code_lem :
        (m : String) (u : U) (s : State U cache)
        → s.ctx.auth_user ≡ some u
        → (req.code == "") ≡ false
        → (with_code services cache config req (services.get_id u) s).2 ≡ none
        → (t : SmsToken) × (c : SmsCacheToken) × IsConfirmed req s u t c
    unfolding with_code
    with_code_lem m u s somebody given passed = elim (Token-cases req.token_parameter) [
      | inl e ↦ ground arith
      | inr (inl e) ↦ ground arith
      | inr (inr (t, e)) ↦ ground (arith, find_cache_token_lem (services.get_id u) t s)
    ]

    -- The SMS handler lets a request pass without an error only if the check of its content asks to
    -- skip the confirmation, or if there is an authenticated user and the request carries an
    -- unexpired token that the cache still has, with tries left, the checksum of the same request,
    -- and the code that was sent.
    pub handle-IsConfirmed :
        (s : State U cache)
        → (handle services cache config req s).2 ≡ none
        → ((m : String) × (req.content_check ≡ ok (m, true)))
          ⊎ ((u : U) × (t : SmsToken) × (c : SmsCacheToken) × IsConfirmed req s u t c)
    unfolding handle with_auth_user with_code
    handle-IsConfirmed s passed = elim (Result-cases req.content_check) [
      | inl failed ↦ ground arith
      | inr ((m, true), checked) ↦ inl (m, checked)
      | inr ((m, false), checked) ↦ elim (Option-cases s.ctx.auth_user) [
        | inl nobody ↦ ground arith
        | inr (u, somebody) ↦ elim (Bool-cases (req.code == "")) [
          | inl empty ↦ ground (arith, without_code_fails m u s)
          | inr given ↦
              let (t, c, confirmed) = with_code_lem m u s somebody given (ground arith) in
              inr (u, t, c, confirmed)
        ]
      ]
    ]

    pub handle-with_code :
        (s : State U cache) (m : String) (u : U)
        → req.content_check ≡ ok (m, false)
        → s.ctx.auth_user ≡ some u
        → (req.code == "") ≡ false
        → handle services cache config req s
          ≡ with_code services cache config req (services.get_id u) s
    unfolding handle with_auth_user
    handle-with_code s m u checked authenticated given = ground arith

    pub with_code-find :
        (s : State U cache) (u : U) (t : SmsToken)
        → req.token_parameter ≡ decoded t
        → ltb t.exp req.now ≡ false
        → with_code services cache config req (services.get_id u) s
          ≡ find_cache_token services cache config req (services.get_id u) t s
    unfolding with_code
    with_code-find s u t names fresh = ground arith

    handle_accepts :
        (s : State U cache) (m : String) (u : U) (t : SmsToken) (c : SmsCacheToken)
        → req.content_check ≡ ok (m, false)
        → IsConfirmed req s u t c
        → handle services cache config req s ≡ (spent s u t, true, none)
    unfolding find_cache_token check_code
    handle_accepts s m u t c checked confirmed =
        handle-with_code s m u checked confirmed.authenticated confirmed.given
        ∙ with_code-find s u t confirmed.names confirmed.not_expired
        ∙ ground arith

    spent_token :
        CacheLaws cache
        → (s : State U cache) (u : U) (t : SmsToken)
        → cache.get (spent s u t).store (sms_token_cache_key t.id) ≡ ok none
    spent_token laws s u t =
        let key = sms_token_cache_key t.id in
        let delay_key = sms_delay_cache_key (services.get_id u) in
        elim (Bool-cases (delay_key == key)) [
          | inl same ↦
              ap (λ k. cache.get (cache.unset (cache.unset s.store key) delay_key) k)
                (sym ((string_eq.eqb_iff delay_key key).0 same))
              ∙ laws.get-unset (cache.unset s.store key) delay_key
          | inr other ↦
              laws.get-unset_ne (cache.unset s.store key) delay_key key
                (λ e. ground (arith, string_eq.eqb_iff delay_key key))
              ∙ laws.get-unset s.store key
        ]

  -- With a cache that obeys its laws, a confirmed request passes, and a later authenticated request
  -- with a code, for the same unexpired token and against the store that the first one left, is
  -- refused as expired whatever its code and user.
  pub handle_once :
      CacheLaws cache
      → (req : Request) (s : State U cache) (m : String) (u : U) (t : SmsToken) (c : SmsCacheToken)
      → req.content_check ≡ ok (m, false)
      → IsConfirmed req s u t c
      → (req' : Request) (s' : State U cache) (m' : String) (u' : U)
      → s'.store ≡ (handle services cache config req s).0.store
      → s'.ctx.auth_user ≡ some u'
      → req'.content_check ≡ ok (m', false)
      → (req'.code == "") ≡ false
      → req'.token_parameter ≡ decoded t
      → ltb t.exp req'.now ≡ false
      → ((handle services cache config req s).2 ≡ none)
        × (handle services cache config req' s'
            ≡ fail services cache config "sms_token_expired" true cache_token_expired s')
  unfolding find_cache_token
  handle_once laws req s m u t c checked confirmed req' s' m' u' kept authenticated checked' given'
        names' fresh' =
      let accepted = handle_accepts req s m u t c checked confirmed in
      let gone : cache.get s'.store (sms_token_cache_key t.id) ≡ ok none =
        ap (λ st. cache.get st (sms_token_cache_key t.id)) (kept ∙ ap (λ o. o.0.store) accepted)
        ∙ spent_token req laws s u t in
      (
        ap (λ o. o.2) accepted,
        handle-with_code req' s' m' u' checked' authenticated given'
            ∙ with_code-find req' s' u' t names' fresh'
            ∙ ground (arith, gone),
      )
