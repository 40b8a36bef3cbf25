-- ===== src/FileStorage/SignedUrl/Expiry.antt =====
-- signed_url.go: a signed URL is accepted until its expiry, and refused after it.
use evgo.Shared.{
  ℕ, ◌+◌, ◌≡◌, refl, Bool, true, false, none, some, List, String, string_eq, ◌==◌, ltb, nat_beq,
  if◌then◌else◌, get, beq_refl, put, Bool-cases, ◌⊎◌, inl, inr, get-put_same, get-put_other,
}
use evgo.FileStorage.SignedUrl.{
  Url, SignedUrlConfig, Coding, SignUrlValues, signed_text, query_get, calc_url_hmac, with_expiry,
  with_signature, sign_url, expired, check_url_hmac, is_expired, check_url,
}

-- what the code relies on of strconv and of the keyed hash
pub record IsCoding (coding : Coding) : Type 0 where
  pub parse-format : (n : ℕ) → coding.parse_int (coding.format_int n) ≡ n
  pub format_nonempty : (n : ℕ) → (coding.format_int n == "") ≡ false
  pub check-calc :
      (secret text : String) → coding.check_hmac secret text (coding.calc_hmac secret text) ≡ true

query_get-put_same : (k v : String) (q : List (String × String)) → query_get k (put k v q) ≡ v
unfolding query_get
query_get-put_same k v q = rw (get-put_same k k v q (beq_refl k)) refl

query_get-put_other :
    (k j v : String) (q : List (String × String))
    → (k == j) ≡ false
    → query_get j (put k v q) ≡ query_get j q
unfolding query_get
query_get-put_other k j v q h = rw (get-put_other k j v q h) refl

some_lem : (signed u : Url) → some u ≡ some signed → u ≡ signed
some_lem signed u e = cc

-- A URL that is signed at `now` has lapsed at `later`.
abbrev pub lapsed : SignedUrlConfig → ℕ → ℕ → Bool
lapsed config now later =
    if nat_beq config.expiration 0 then false else ltb (now + config.expiration) later

module _ (coding : Coding) (config : SignedUrlConfig) (laws : IsCoding coding) where
  hash_lem :
      (u : Url) (v : SignUrlValues) (expiry : String)
      → check_url_hmac coding config u v expiry
          (coding.calc_hmac config.secret (signed_text v expiry u.path))
        ≡ none
  unfolding check_url_hmac
  hash_lem u v expiry = rw (laws.check-calc config.secret (signed_text v expiry u.path)) refl

  with_signature_lem :
      (u : Url) (v : SignUrlValues) (later : ℕ)
      → (config.signature_param == config.expiry_param) ≡ false
      → check_url coding config later (with_signature coding config v u) v ≡ (
          if is_expired coding config later (query_get config.expiry_param u.query)
          then some expired
          else none)
  unfolding check_url with_signature calc_url_hmac check_url_hmac
  with_signature_lem u v later h =
      rw
        (
          query_get-put_other config.signature_param config.expiry_param
              (calc_url_hmac coding config u v) u.query h,
          query_get-put_same config.signature_param (calc_url_hmac coding config u v) u.query,
          hash_lem u v (query_get config.expiry_param u.query),
        )
        refl

  with_expiry_lem :
      (now later : ℕ) (u : Url)
      → get config.expiry_param u.query ≡ none
      → is_expired coding config later
          (query_get config.expiry_param (with_expiry coding config now u).query)
        ≡ lapsed config now later
  unfolding with_expiry is_expired query_get
  with_expiry_lem now later u h = after (Bool-cases (nat_beq config.expiration 0))
    where
      after :
          (nat_beq config.expiration 0 ≡ true) ⊎ (nat_beq config.expiration 0 ≡ false)
          → is_expired coding config later
              (query_get config.expiry_param (with_expiry coding config now u).query)
            ≡ lapsed config now later
      after (inl z) = rw (z, h) refl
      after (inr z) =
          rw
            (
              z,
              get-put_same config.expiry_param config.expiry_param
                  (coding.format_int (now + config.expiration)) u.query
                  (beq_refl config.expiry_param),
              laws.format_nonempty (now + config.expiration),
              laws.parse-format (now + config.expiration),
            )
            refl

  -- With a coding that obeys its laws and two different names of parameters, a URL without an
  -- expiry that is signed passes the check with the same parameters until the configured time has
  -- passed since, or for ever if none is configured, and is then refused as expired.
  pub check_url-sign_url :
      (now later : ℕ) (u signed : Url) (v : SignUrlValues)
      → (config.signature_param == config.expiry_param) ≡ false
      → get config.expiry_param u.query ≡ none
      → sign_url coding config now (some u) v ≡ some signed
      → check_url coding config later signed v
        ≡ (if lapsed config now later then some expired else none)
  unfolding sign_url
  check_url-sign_url now later u signed v h k e =
      rw
        (
          ← some_lem signed (with_signature coding config v (with_expiry coding config now u)) e,
          with_signature_lem (with_expiry coding config now u) v later h,
          with_expiry_lem now later u k,
        )
        refl
