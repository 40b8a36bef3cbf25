-- ===== src/Auth/Sms.antt =====
-- pkg/auth/auth_methods/auth_sms/auth_sms.go: confirmation of a request by an SMS code. Cache, HMAC,
-- encryption of the response token and the SMS manager are parameters; times are nanoseconds.
pub mod Acceptance
pub mod Sending
pub mod Stores
pub mod Limit
pub mod Guesses
use Prim.Native.String.{◌++◌}
use evgo.Shared.{
  ℕ, ◌+◌, ◌-◌, ◌*◌, ◌/◌, Bool, true, false, not, ◌&&◌, Option, none, some, List, [], ◌∷◌, String,
  string_eq, ◌==◌, if◌then◌else◌, ltb, leb,
}
use evgo.Auth.Context.{
  Result, ok, err, AuthContext, set_generic_error_code, set_auth_parameter, Cache,
}

pub record SmsCacheToken : Type 0 where
  pub try : ℕ
  pub code : String
  pub checksum : String
  pub sms_id : String

-- SmsToken: an ExpireToken with an id
pub record SmsToken : Type 0 where
  pub id : String
  pub exp : ℕ

-- what the cache holds under the handler's two kinds of keys; `delay` has the time of creation
pub data CacheItem : Type 0 where
  delay : ℕ → CacheItem
  token : SmsCacheToken → CacheItem

pub record AuthSmsConfig : Type 0 where
  pub token_ttl_seconds : ℕ
  pub sms_delay_seconds : ℕ
  pub max_tries : ℕ

pub data SmsError : Type 0 where
  check_content_failed unknown_user token_not_found bad_token token_expired cache_failed : SmsError
  cache_token_expired too_many_tries invalid_checksum invalid_sms_code set_token_failed : SmsError
  wait_for_delay no_phone_interface unknown_phone send_failed sms_code_not_found : SmsError

-- What `GetAuthParameter` makes of the token parameter of the request.
pub data TokenParameter : Type 0 where
  missing undecodable : TokenParameter
  decoded : SmsToken → TokenParameter

-- The request, with what the parameters of the model give for it: the checked content (a message
-- template and whether to skip), the time, a new token id and a new code.
pub record Request : Type 0 where
  pub content_check : Result (String × Bool)
  pub code : String
  pub token_parameter : TokenParameter
  pub method : String
  pub path : String
  pub content : String
  pub now : ℕ
  pub new_id : String
  pub new_code : String

-- users, HMAC with the secret, encryption of a response token, and the SMS manager
pub record Services (U : Type 0) : Type 0 where
  pub get_id : U → String
  pub phone : U → Option String
  pub hmac_sum : String → String
  pub hmac_check : String → String → Bool
  pub encrypts : SmsToken → Bool
  pub send : String → String → String → Result String

abbrev pub nanoseconds : ℕ
nanoseconds = 1_000_000_000

unfoldable pub sms_delay_cache_key : String → String
sms_delay_cache_key user_id = "sms-delay/" ++ user_id

unfoldable pub sms_token_cache_key : String → String
sms_token_cache_key id = "sms-token/" ++ id

-- `sent` has the messages that were handed to the SMS manager, latest first.
pub record State (U : Type 0) (cache : Cache CacheItem) : Type 0 where
  pub ctx : AuthContext U
  pub store : cache.Store
  pub response_token : Option SmsToken
  pub response_delay : Option ℕ
  pub sent : List (String × String)

-- Whole seconds from `created` to now, and what is left of the delay; a creation in the future makes
-- the difference negative.
unfoldable pub delay_left : ℕ → ℕ → ℕ → ℕ
delay_left delay_seconds now created =
    if leb created now
    then (let passed = (now - created) / nanoseconds in
        if ltb delay_seconds passed then 0 else delay_seconds - passed)
    else delay_seconds + (created - now) / nanoseconds

module _ {U : Type 0} (services : Services U) (cache : Cache CacheItem)
    (config : AuthSmsConfig) where
  abbrev pub Outcome : Type 0
  Outcome = State U cache × Bool × Option SmsError

  abbrev pub fail : String → Bool → SmsError → State U cache → Outcome
  fail code found e s = (record s { ctx = set_generic_error_code code s.ctx }, found, some e)

  -- the user, method, path and content of a request, as HMAC reads them: one after another
  abbrev pub hmac_input : Request → String → String
  hmac_input req user_id = user_id ++ req.method ++ req.path ++ req.content

  -- `setToken`: into the cache, and with a new expiration into the response. `some` is an error.
  unfoldable pub set_token : Request → SmsCacheToken → String → State U cache → Outcome
  set_token req cache_token id s =
      elim (cache.set s.store (sms_token_cache_key id) (token cache_token)
        config.token_ttl_seconds) [
          | err ↦ fail "internal_server_error" true set_token_failed s
          | ok store ↦
              let request_token : SmsToken = record {
                id = id;
                exp = req.now + config.token_ttl_seconds * nanoseconds;
              } in
              let s = record s { store = store } in
              if services.encrypts request_token
              then (record s { response_token = some request_token }, true, none)
              else fail "internal_server_error" true set_token_failed s
        ]

  -- a wrong code: the token is replaced by a new one with one more try
  unfoldable pub wrong_code : Request → SmsCacheToken → String → State U cache → Outcome
  wrong_code req cache_token old_key s =
      let s = record s { store = cache.unset s.store old_key } in
      let (s', found, e) =
        set_token req (record cache_token { try = cache_token.try + 1 }) req.new_id s in
      elim e [
        | some x ↦ (s', true, some x)
        | none ↦ fail "sms_code_invalid" true invalid_sms_code s'
      ]

  -- the checks of `Handle` against the token in the cache
  unfoldable pub check_code : Request → String → SmsCacheToken → String → State U cache → Outcome
  check_code req user_id cache_token old_key s =
      if leb config.max_tries cache_token.try
      then fail "sms_too_many_tries" true too_many_tries
          (record s { store = cache.unset s.store old_key })
      else if not (services.hmac_check (hmac_input req user_id) cache_token.checksum)
      then fail "sms_content_mismatch" false invalid_checksum s
      else if not (req.code == cache_token.code)
      then wrong_code req cache_token old_key s
      else (
        record s {
          store = cache.unset (cache.unset s.store old_key) (sms_delay_cache_key user_id);
        },
        true,
        none,
      )

  -- A value of the other kind, which is not met since the prefixes of the keys differ, is taken not to
  -- decode.
  unfoldable pub find_cache_token : Request → String → SmsToken → State U cache → Outcome
  find_cache_token req user_id request_token s =
      let old_key = sms_token_cache_key request_token.id in
      elim (cache.get s.store old_key) [
        | err ↦ fail "internal_server_error" true cache_failed s
        | ok none ↦ fail "sms_token_expired" true cache_token_expired s
        | ok (some (delay created)) ↦ fail "internal_server_error" true cache_failed s
        | ok (some (token cache_token)) ↦ check_code req user_id cache_token old_key s
      ]

  -- the branch of `Handle` for a request with a code
  unfoldable pub with_code : Request → String → State U cache → Outcome
  with_code req user_id s = elim req.token_parameter [
    | missing ↦ fail "sms_token_required" false token_not_found s
    | undecodable ↦ fail "sms_token_invalid" true bad_token s
    | decoded request_token ↦
        if ltb request_token.exp req.now
        then fail "sms_token_expired" true token_expired s
        else find_cache_token req user_id request_token s
  ]

  abbrev pub written : cache.Store → Result cache.Store → cache.Store
  written old (ok new) = new
  written old err = old

  -- the end of `Handle` after the token was put into the response
  unfoldable pub save_delay : Request → String → State U cache → Outcome
  save_delay req user_id s =
      let set =
        cache.set s.store (sms_delay_cache_key user_id) (delay req.now) config.sms_delay_seconds in
      fail "sms_confirmation_required" true sms_code_not_found
        (record s { store = written s.store set; response_delay = some config.sms_delay_seconds })

  -- a new code is sent to the phone, and its token is set
  unfoldable pub send_code : Request → String → String → String → State U cache → Outcome
  send_code req message user_id phone s =
      let template = if message == "" then "code %s" else message in
      let s = record s { sent = (phone, req.new_code) ∷ s.sent } in
      elim (services.send template req.new_code phone) [
        | err ↦ fail "internal_server_error" true send_failed s
        | ok sms_id ↦
            let cache_token : SmsCacheToken = record {
              try = 1;
              code = req.new_code;
              checksum = services.hmac_sum (hmac_input req user_id);
              sms_id = sms_id;
            } in
            let (s', found, e) = set_token req cache_token req.new_id s in
            elim e [ some x ↦ (s', true, some x) | none ↦ save_delay req user_id s' ]
      ]

  -- the branch of `Handle` for a request without a code
  unfoldable pub without_code : Request → String → U → State U cache → Outcome
  without_code req message user s =
      let user_id = services.get_id user in
      elim (cache.get s.store (sms_delay_cache_key user_id)) [
        | err ↦ fail "internal_server_error" true cache_failed s
        | ok (some (token cache_token)) ↦ fail "internal_server_error" true cache_failed s
        | ok (some (delay created)) ↦ fail "sms_wait_delay" true wait_for_delay (record s {
          response_delay = some (delay_left config.sms_delay_seconds req.now created);
        })
        | ok none ↦ elim (services.phone user) [
          | none ↦ fail "internal_server_error" true no_phone_interface s
          | some phone ↦
              if phone == ""
              then fail "sms_invalid_phone" true unknown_phone s
              else send_code req message user_id phone s
        ]
      ]

  unfoldable pub with_auth_user : Request → String → U → State U cache → Outcome
  with_auth_user req message user s =
      if req.code == ""
      then without_code req message user s
      else with_code req (services.get_id user) s

  -- `AuthSms.Handle`: the state after it, whether the method was found, and the error
  unfoldable pub handle : Request → State U cache → Outcome
  handle req s = elim req.content_check [
    | err ↦ fail "invalid_format" true check_content_failed s
    | ok (message, skip) ↦ if skip then (s, true, none) else elim s.ctx.auth_user [
      | none ↦ fail "unauthorized" true unknown_user s
      | some user ↦ with_auth_user req message user s
    ]
  ]
