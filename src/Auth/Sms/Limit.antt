-- ===== src/Auth/Sms/Limit.antt =====
-- AuthSms.Handle: the limit on the tries of the tokens in the cache.
use mathlib.Core.Path.{subst}
use evgo.Shared.{
  ◌+◌, ◌≤◌, ◌<◌, ◌≡◌, refl, inl, inr, true, false, none, some, ◌∷◌, String, string_eq, ◌==◌, arith,
  Bool-cases, Option-cases, if◌then◌else◌, ltb, leb,
}
use evgo.Auth.Context.{Result-cases, Cache, CacheLaws}
use evgo.Auth.Sms.{
  SmsCacheToken, SmsToken, CacheItem, delay, token, AuthSmsConfig, TokenParameter, missing,
  undecodable, decoded, Request, Services, State, sms_delay_cache_key, sms_token_cache_key,
  hmac_input, set_token, wrong_code, check_code, find_cache_token, with_code, save_delay, send_code,
  without_code, with_auth_user, handle,
}
use evgo.Auth.Sms.Stores.{IsLimited, unset-IsLimited, set-IsLimited, set_token-IsLimited}

module _ {U : Type 0} (services : Services U) (cache : Cache CacheItem) (config : AuthSmsConfig)
    (laws : CacheLaws cache) (req : Request) where
  abbrev Lim : cache.Store → Type 0
  Lim = IsLimited cache config.max_tries

  wrong_code-IsLimited :
      (id : String) (c : SmsCacheToken) (key : String) (s : State U cache)
      → c.try < config.max_tries
      → Lim s.store
      → Lim (wrong_code services cache config req c key s).0.store
  unfolding wrong_code
  wrong_code-IsLimited id c key s few lim =
      let s' = record s { store = cache.unset s.store key } in
      let c' = record c { try = c.try + 1 } in
      let e : (set_token services cache config req c' req.new_id s').0.store
          ≡ (wrong_code services cache config req c key s).0.store =
        ground arith in
      subst Lim e (
        set_token-IsLimited services cache config laws req id s' c' req.new_id (ground arith)
          (unset-IsLimited cache config.max_tries laws s.store key lim))

  check_code-IsLimited :
      (id : String) (c : SmsCacheToken) (key : String) (s : State U cache)
      → Lim s.store
      → Lim (check_code services cache config req id c key s).0.store
  unfolding check_code
  check_code-IsLimited id c key s lim =
      let out = (check_code services cache config req id c key s).0.store in
      let unset = unset-IsLimited cache config.max_tries laws in
      elim (Bool-cases (leb config.max_tries c.try)) [
        | inl many ↦
            let e : cache.unset s.store key ≡ out = ground arith in
            subst Lim e (unset s.store key lim)
        | inr few ↦
            elim (Bool-cases
              (services.hmac_check (hmac_input services cache config req id) c.checksum)) [
                | inr mismatch ↦ let e : s.store ≡ out = ground arith in subst Lim e lim
                | inl same ↦ elim (Bool-cases (req.code == c.code)) [
                  | inr wrong ↦
                      let e : (wrong_code services cache config req c key s).0.store ≡ out =
                        ground arith in
                      subst Lim e (wrong_code-IsLimited id c key s (ground arith) lim)
                  | inl right ↦
                      let e : cache.unset (cache.unset s.store key) (sms_delay_cache_key id) ≡ out =
                        ground arith in
                      subst Lim e (
                        unset (cache.unset s.store key) (sms_delay_cache_key id)
                          (unset s.store key lim))
                ]
              ]
      ]

  find_cache_token-IsLimited :
      (id : String) (t : SmsToken) (s : State U cache)
      → Lim s.store
      → Lim (find_cache_token services cache config req id t s).0.store
  unfolding find_cache_token
  find_cache_token-IsLimited id t s lim =
      let out = (find_cache_token services cache config req id t s).0.store in
      let key = sms_token_cache_key t.id in
      elim (Result-cases (cache.get s.store key)) [
        | inl failed ↦ let e : s.store ≡ out = ground arith in subst Lim e lim
        | inr (none, missed) ↦ let e : s.store ≡ out = ground arith in subst Lim e lim
        | inr (some (delay d), found) ↦ let e : s.store ≡ out = ground arith in subst Lim e lim
        | inr (some (token c), found) ↦
            let e : (check_code services cache config req id c key s).0.store ≡ out =
              ground arith in
            subst Lim e (check_code-IsLimited id c key s lim)
      ]

  with_code-IsLimited :
      (id : String) (p : TokenParameter) (s : State U cache)
      → req.token_parameter ≡ p
      → Lim s.store
      → Lim (with_code services cache config req id s).0.store
  unfolding with_code
  with_code-IsLimited id missing s given lim =
      let e : s.store ≡ (with_code services cache config req id s).0.store = ground arith in
      subst Lim e lim
  with_code-IsLimited id undecodable s given lim =
      let e : s.store ≡ (with_code services cache config req id s).0.store = ground arith in
      subst Lim e lim
  with_code-IsLimited id (decoded t) s given lim = elim (Bool-cases (ltb t.exp req.now)) [
    | inl over ↦
        let e : s.store ≡ (with_code services cache config req id s).0.store = ground arith in
        subst Lim e lim
    | inr fresh ↦
        let e : (find_cache_token services cache config req id t s).0.store
            ≡ (with_code services cache config req id s).0.store =
          ground arith in
        subst Lim e (find_cache_token-IsLimited id t s lim)
  ]

  save_delay-IsLimited :
      (id : String) (s : State U cache)
      → Lim s.store
      → Lim (save_delay services cache config req id s).0.store
  unfolding save_delay
  save_delay-IsLimited id s lim =
      let out = (save_delay services cache config req id s).0.store in
      elim (Result-cases
        (cache.set s.store (sms_delay_cache_key id) (delay req.now) config.sms_delay_seconds)) [
          | inl failed ↦ let e : s.store ≡ out = ground arith in subst Lim e lim
          | inr (st, done) ↦
              let e : st ≡ out = ground arith in
              subst Lim e (
                set-IsLimited cache config.max_tries laws s.store st (sms_delay_cache_key id)
                  (delay req.now) config.sms_delay_seconds done tt lim)
        ]

  send_code-IsLimited :
      (m id phone : String) (s : State U cache)
      → 1 ≤ config.max_tries
      → Lim s.store
      → Lim (send_code services cache config req m id phone s).0.store
  unfolding send_code
  send_code-IsLimited m id phone s some_try lim =
      let out = (send_code services cache config req m id phone s).0.store in
      let s1 = record s { sent = (phone, req.new_code) ∷ s.sent } in
      elim (Result-cases (services.send (if m == "" then "code %s" else m) req.new_code phone)) [
        | inl failed ↦ let e : s.store ≡ out = ground arith in subst Lim e lim
        | inr (sms_id, done) ↦
            let c : SmsCacheToken = record {
              try = 1;
              code = req.new_code;
              checksum = services.hmac_sum (hmac_input services cache config req id);
              sms_id = sms_id;
            } in
            let r = set_token services cache config req c req.new_id s1 in
            let stored =
              set_token-IsLimited services cache config laws req id s1 c req.new_id some_try lim in
            elim (Option-cases r.2) [
              | inl fine ↦
                  let e : (save_delay services cache config req id r.0).0.store ≡ out =
                    ground arith in
                  subst Lim e (save_delay-IsLimited id r.0 stored)
              | inr (x, failed) ↦ let e : r.0.store ≡ out = ground arith in subst Lim e stored
            ]
      ]

  without_code-IsLimited :
      (m : String) (u : U) (s : State U cache)
      → 1 ≤ config.max_tries
      → Lim s.store
      → Lim (without_code services cache config req m u s).0.store
  unfolding without_code
  without_code-IsLimited m u s some_try lim =
      let out = (without_code services cache config req m u s).0.store in
      let id = services.get_id u in
      elim (Result-cases (cache.get s.store (sms_delay_cache_key id))) [
        | inl failed ↦ let e : s.store ≡ out = ground arith in subst Lim e lim
        | inr (some (token c), found) ↦ let e : s.store ≡ out = ground arith in subst Lim e lim
        | inr (some (delay d), found) ↦ let e : s.store ≡ out = ground arith in subst Lim e lim
        | inr (none, free) ↦ elim (Option-cases (services.phone u)) [
          | inl missing_phone ↦ let e : s.store ≡ out = ground arith in subst Lim e lim
          | inr (phone, there) ↦ elim (Bool-cases (phone == "")) [
            | inl empty ↦ let e : s.store ≡ out = ground arith in subst Lim e lim
            | inr given ↦
                let e : (send_code services cache config req m id phone s).0.store ≡ out =
                  ground arith in
                subst Lim e (send_code-IsLimited m id phone s some_try lim)
          ]
        ]
      ]

  -- With a cache that obeys its laws and at least one try allowed, every request to the SMS handler
  -- leaves a cache in which no token has more tries than MAX_TRIES, if there was none before.
  pub handle-IsLimited :
      (s : State U cache)
      → 1 ≤ config.max_tries
      → IsLimited cache config.max_tries s.store
      → IsLimited cache config.max_tries (handle services cache config req s).0.store
  unfolding handle with_auth_user
  handle-IsLimited s some_try lim =
      let out = (handle services cache config req s).0.store in
      elim (Result-cases req.content_check) [
        | inl failed ↦ let e : s.store ≡ out = ground arith in subst Lim e lim
        | inr ((m, true), checked) ↦ let e : s.store ≡ out = ground arith in subst Lim e lim
        | inr ((m, false), checked) ↦ elim (Option-cases s.ctx.auth_user) [
          | inl nobody ↦ let e : s.store ≡ out = ground arith in subst Lim e lim
          | inr (u, there) ↦ elim (Bool-cases (req.code == "")) [
            | inl empty ↦
                let e : (without_code services cache config req m u s).0.store ≡ out =
                  ground arith in
                subst Lim e (without_code-IsLimited m u s some_try lim)
            | inr given ↦
                let e : (with_code services cache config req (services.get_id u) s).0.store ≡ out =
                  ground arith in
                subst Lim e (with_code-IsLimited (services.get_id u) req.token_parameter s refl lim)
          ]
        ]
      ]
