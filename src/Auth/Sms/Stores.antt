-- ===== src/Auth/Sms/Stores.antt =====
-- AuthSms.setToken and the cache: stores whose tokens have tries within the limit.
use mathlib.Core.Path.{subst}
use evgo.Shared.{
  ℕ, ◌≤◌, ◌≡◌, ap, sym, ◌∙◌, inl, inr, ◌≢◌, false, none, some, String, string_eq, ◌==◌, arith,
  Bool-cases,
}
use evgo.Auth.Context.{Result-cases, ok, Cache, CacheLaws}
use evgo.Auth.Sms.{
  SmsCacheToken, CacheItem, delay, token, AuthSmsConfig, Request, Services, State,
  sms_token_cache_key, set_token,
}

module _ (cache : Cache CacheItem) (max_tries : ℕ) where
  -- an item of the cache
  abbrev pub HasTries : CacheItem → Type 0
  HasTries (delay created) = Unit {0}
  HasTries (token c) = c.try ≤ max_tries

  -- Every item that the cache holds has tries within the limit.
  abbrev pub IsLimited : cache.Store → Type 0
  IsLimited st = (k : String) (item : CacheItem) → cache.get st k ≡ ok (some item) → HasTries item

  module _ (laws : CacheLaws cache) where
    differs : (k j : String) → (k == j) ≡ false → k ≢ j
    differs k j other e = ground (arith, string_eq.eqb_iff k j)

    pub no_item : {item : CacheItem} → ok none ≡ ok (some item) → ⊥
    no_item e = ground (arith, e)

    pub one_item : {a b : CacheItem} → ok (some a) ≡ ok (some b) → a ≡ b
    one_item e = ground (arith, e)

    pub unset-IsLimited :
        (st : cache.Store) (k : String) → IsLimited st → IsLimited (cache.unset st k)
    unset-IsLimited st k lim j item found = elim (Bool-cases (k == j)) [
      | inl same ↦
          let gone : cache.get (cache.unset st k) j ≡ ok none =
            ap (cache.get (cache.unset st k)) (sym ((string_eq.eqb_iff k j).0 same))
            ∙ laws.get-unset st k in
          absurd (no_item (sym gone ∙ found))
      | inr other ↦ lim j item (sym (laws.get-unset_ne st k j (differs k j other)) ∙ found)
    ]

    pub set-IsLimited :
        (st st' : cache.Store) (k : String) (v : CacheItem) (ttl : ℕ)
        → cache.set st k v ttl ≡ ok st'
        → HasTries v
        → IsLimited st
        → IsLimited st'
    set-IsLimited st st' k v ttl done good lim j item found = elim (Bool-cases (k == j)) [
      | inl same ↦
          let there : cache.get st' j ≡ ok (some v) =
            ap (cache.get st') (sym ((string_eq.eqb_iff k j).0 same))
            ∙ laws.get-set st st' k v ttl done in
          subst HasTries (one_item (sym there ∙ found)) good
      | inr other ↦
          lim j item (sym (laws.get-set_ne st st' k j v ttl (differs k j other) done) ∙ found)
    ]

module _ {U : Type 0} (services : Services U) (cache : Cache CacheItem) (config : AuthSmsConfig)
    (laws : CacheLaws cache) (req : Request) (id : String) (s : State U cache) where
  abbrev Limited : cache.Store → Type 0
  Limited = IsLimited cache config.max_tries

  pub set_token-IsLimited :
      (c : SmsCacheToken) (key : String)
      → c.try ≤ config.max_tries
      → Limited s.store
      → Limited (set_token services cache config req c key s).0.store
  unfolding set_token
  set_token-IsLimited c key good lim =
      elim (Result-cases
        (cache.set s.store (sms_token_cache_key key) (token c) config.token_ttl_seconds)) [
          | inl failed ↦
              let e : s.store ≡ (set_token services cache config req c key s).0.store =
                ground arith in
              subst Limited e lim
          | inr (st, done) ↦
              let e : st ≡ (set_token services cache config req c key s).0.store = ground arith in
              subst Limited e (
                set-IsLimited cache config.max_tries laws s.store st (sms_token_cache_key key)
                  (token c) config.token_ttl_seconds done good lim)
        ]
