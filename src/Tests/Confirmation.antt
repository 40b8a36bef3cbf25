-- ===== src/Tests/Confirmation.antt =====
-- The confirmation by SMS (pkg/auth/auth_methods/auth_sms) at concrete inputs.
use evgo.Shared.{
  inl, inr, Bool-cases, ℕ, ◌≡◌, refl, sym, ◌∙◌, ◌≢◌, ◌⊎◌, true, false, none, some, [], ◌∷◌, String,
  string_eq, ◌==◌, if◌then◌else◌, arith,
}
use evgo.Auth.Context.{ok}
use evgo.Auth.Sms
use evgo.Auth.Sms.{
  Services, CacheItem, AuthSmsConfig, SmsToken, SmsCacheToken, sms_token_cache_key,
  sms_delay_cache_key, fail,
}
use evgo.Auth.Sms.Acceptance.{IsConfirmed, handle-IsConfirmed, handle_once}
use mathlib.Core.Path.{subst}
use evgo.Auth.Sms.Stores.{HasTries, IsLimited, one_item, no_item}
use evgo.Auth.Sms.Limit.{handle-IsLimited}
use evgo.Auth.Sms.Sending.{MaySend, handle-sent}
use evgo.Auth.Sms.Guesses.{IsGuess, IsCounted, handle-too_many_tries, handle-IsCounted}
use evgo.Tests.Authentication.{memory, memory-CacheLaws, new_context}

-- The code 123 is sent to the phone of the user, whose checksum is the text itself.
abbrev services : Services String
services = record {
  get_id = λ u. u;
  phone = λ u. some "+4912";
  hmac_sum = λ text. text;
  hmac_check = λ text checksum. text == checksum;
  encrypts = λ t. true;
  send = λ message content phone. ok "sms1";
}

abbrev sms_config : AuthSmsConfig
sms_config = record { token_ttl_seconds = 300; sms_delay_seconds = 30; max_tries = 3 }

abbrev sms_request : String → Sms.TokenParameter → Sms.Request
sms_request code parameter = record {
  content_check = ok ("", false);
  code = code;
  token_parameter = parameter;
  method = "POST";
  path = "/pay";
  content = "10";
  now = 1000;
  new_id = "next";
  new_code = "123";
}

abbrev request_token : SmsToken
request_token = record { id = "one"; exp = 5000 }

abbrev cached : ℕ → SmsCacheToken
cached tries = record { try = tries; code = "123"; checksum = "alicePOST/pay10"; sms_id = "sms1" }

abbrev waiting : ℕ → Sms.State String memory
waiting tries = record {
  ctx = record new_context { auth_user = some "alice" };
  store = λ k. if k == "sms-token/one" then some (Sms.token (cached tries)) else none;
  response_token = none;
  response_delay = none;
  sent = [];
}

abbrev right : Sms.Request
right = sms_request "123" (Sms.decoded request_token)

abbrev wrong : Sms.Request
wrong = sms_request "124" (Sms.decoded request_token)

confirmed :
    IsConfirmed services memory sms_config right (waiting 1) "alice" request_token (cached 1)
unfolding sms_token_cache_key
confirmed = record {
  authenticated = refl;
  given = refl;
  names = refl;
  not_expired = refl;
  cached = refl;
  tries_left = refl;
  same_content = refl;
  right_code = refl;
}

guess :
    (tries : ℕ)
    → IsGuess services memory sms_config wrong (waiting tries) "alice" request_token (cached tries)
unfolding sms_token_cache_key
guess tries = record {
  checked = ("", refl);
  authenticated = refl;
  given = refl;
  names = refl;
  not_expired = refl;
  cached = refl;
}

handle-IsConfirmed_example :
    ((m : String) × (right.content_check ≡ ok (m, true)))
    ⊎ ((u : String) × (t : SmsToken) × (c : SmsCacheToken) × IsConfirmed services memory sms_config
          right
          (waiting 1)
          u
          t
          c)
handle-IsConfirmed_example = handle-IsConfirmed services memory sms_config right (waiting 1) (
    unfold Sms.handle Sms.with_auth_user Sms.with_code Sms.find_cache_token Sms.check_code
      sms_token_cache_key in
    refl)

abbrev after_right : Sms.State String memory
after_right = record (Sms.handle services memory sms_config right (waiting 1)).0 {
  ctx = (waiting 1).ctx;
}

handle_once_example :
    ((Sms.handle services memory sms_config right (waiting 1)).2 ≡ none)
    × (Sms.handle services memory sms_config wrong after_right
        ≡ fail services memory sms_config "sms_token_expired" true Sms.cache_token_expired
            after_right)
handle_once_example =
    handle_once services memory sms_config (memory-CacheLaws CacheItem) right (waiting 1) "" "alice"
      request_token (cached 1) refl confirmed wrong after_right "" "alice" refl refl refl refl refl
      refl

handle-sent_example :
    ((Sms.handle services memory sms_config (sms_request "" Sms.missing) (waiting 1)).0.sent ≡ [])
    ⊎ ((u : String) × (phone : String) × MaySend services memory sms_config
          (sms_request "" Sms.missing)
          (waiting 1)
          u
          phone
        × ((Sms.handle services memory sms_config (sms_request "" Sms.missing) (waiting 1)).0.sent
            ≡ (phone, "123") ∷ []))
handle-sent_example =
    handle-sent services memory sms_config (sms_request "" Sms.missing) (waiting 1)

handle-too_many_tries_example :
    let (s', found, e) = Sms.handle services memory sms_config wrong (waiting 3) in
    (e ≡ some Sms.too_many_tries)
    × (memory.get s'.store (sms_token_cache_key "one") ≡ ok none)
    × (s'.ctx.auth_user ≡ some "alice")
handle-too_many_tries_example =
    handle-too_many_tries services memory sms_config wrong (waiting 3) "alice" request_token
      (cached 3) (memory-CacheLaws CacheItem) (guess 3) refl

sms_keys_differ : sms_token_cache_key "next" ≢ sms_token_cache_key "one"
unfolding sms_token_cache_key
sms_keys_differ e =
    let same : string_eq.eqb "sms-token/next" "sms-token/one" ≡ true =
      (string_eq.eqb_iff "sms-token/next" "sms-token/one").1 e in
    ground (arith, same)

handle-IsCounted_example :
    let (s', found, e) = Sms.handle services memory sms_config wrong (waiting 1) in
    ((e ≡ some Sms.invalid_sms_code)
      × IsCounted services memory sms_config wrong request_token (cached 1) s'
      × (s'.response_token ≡ some (record { id = "next"; exp = 300_000_001_000 })))
    ⊎ ((e ≡ some Sms.set_token_failed) × (s'.response_token ≡ none))
handle-IsCounted_example =
    handle-IsCounted services memory sms_config wrong (waiting 1) "alice" request_token (cached 1)
      (memory-CacheLaws CacheItem) (guess 1) refl refl refl sms_keys_differ

waiting-IsLimited : IsLimited memory 3 (waiting 1).store
waiting-IsLimited k item found = elim (Bool-cases (k == "sms-token/one")) [
  | inl same ↦
      let there : memory.get (waiting 1).store k ≡ ok (some (Sms.token (cached 1))) =
        rw (same) refl in
      subst (HasTries memory 3) (one_item memory 3 (memory-CacheLaws CacheItem) (sym there ∙ found))
        (omega arith)
  | inr other ↦
      let gone : memory.get (waiting 1).store k ≡ ok none = rw (other) refl in
      absurd (no_item memory 3 (memory-CacheLaws CacheItem) (sym gone ∙ found))
]

handle-IsLimited_example :
    IsLimited memory 3 (Sms.handle services memory sms_config wrong (waiting 1)).0.store
handle-IsLimited_example =
    handle-IsLimited services memory sms_config (memory-CacheLaws CacheItem) wrong (waiting 1)
      (omega arith) waiting-IsLimited
