-- ===== src/Tests/Authentication.antt =====
-- The authentication handlers (pkg/auth/auth_methods) at concrete inputs.
use evgo.Shared.{
  ◌≡◌, refl, ap, sym, ◌∙◌, ◌≢◌, true, false, Option, none, some, [], String, string_eq, ◌==◌,
  if◌then◌else◌, beq_refl, arith,
}
use evgo.Auth.Context.{Result, ok, err, AuthContext, set_auth_user, Cache, CacheLaws}
use evgo.Auth.Login
use evgo.Auth.Login.{Users, LoginDelay}
use evgo.Auth.Login.Authentication.{HasCredentials, handle-HasCredentials}
use evgo.Auth.Login.Throttle.{handle-throttled}
use evgo.Auth.Login.Enumeration.{LooksAlike, handle-LooksAlike}

-- a cache that never fails and never forgets
abbrev pub memory : {V : Type 0} → Cache V
memory {V} = record {
  Store = String → Option V;
  get = λ s k. ok (s k);
  set = λ s k v ttl. ok (λ j. if k == j then some v else s j);
  unset = λ s k j. if k == j then none else s j;
}

abbrev read : {V : Type 0} → Result (String → Option V) → String → Result (Option V)
read (ok s) k = ok (s k)
read err k = err

other_key : (k j : String) → k ≢ j → (k == j) ≡ false
other_key k j ne = ground (arith, string_eq.eqb_iff k j)

pub memory-CacheLaws : (V : Type 0) → CacheLaws (memory {V = V})
memory-CacheLaws V = record {
  get-set = λ s s' k v ttl e. sym (ap (λ r. read r k) e) ∙ rw (beq_refl k) refl;
  get-unset = λ s k. rw (beq_refl k) refl;
  get-set_ne = λ s s' k j v ttl ne e. sym (ap (λ r. read r j) e) ∙ rw (other_key k j ne) refl;
  get-unset_ne = λ s k j ne. rw (other_key k j ne) refl;
}

-- one user, whose login is also the user
abbrev users : Users String
users = record {
  validate_login = λ login. true;
  find_auth_user = λ login. if login == "alice" then ok (some "alice") else ok none;
  fill_auth_user = λ u. true;
  is_blocked = λ u. false;
  password = λ u. some ("hash", "salt");
}

abbrev nobody : Users String
nobody = record users { find_auth_user = λ login. ok none }

abbrev pub new_context : AuthContext String
new_context = record { generic_error = none; auth_user = none; auth_parameters = [] }

abbrev login_config : Login.LoginHandlerConfig
login_config = record { throttle_delay_seconds = 2; negotiate_path = "" }

abbrev login_request : String → String → Login.Request
login_request login phash = record {
  phash = phash;
  path = "/login";
  login = login;
  random = "random";
}

abbrev first : Login.State String memory
first = record { ctx = new_context; store = λ k. none }

credentials : HasCredentials users memory login_config (login_request "alice" "hash") first "alice"
unfolding Login.delay_cache_key
credentials = record {
  named = refl;
  well_formed = refl;
  not_throttled = refl;
  known = refl;
  not_blocked = refl;
  given = refl;
  matches = refl;
}

abbrev alice : Login.Request
alice = login_request "alice" "hash"

abbrev mallory : Login.Request
mallory = login_request "alice" "guess"

login_run :
    ((Login.handle users memory login_config alice first).0.ctx.auth_user ≡ some "alice")
    × ((Login.handle users memory login_config mallory first).2 ≡ some Login.invalid_password)
unfolding Login.handle Login.load_user Login.with_user Login.check_phash Login.check_password_hash
    Login.forward Login.delay_cache_key set_auth_user
login_run = (refl, refl)

handle-HasCredentials_example : HasCredentials users memory login_config alice first "alice"
handle-HasCredentials_example =
    handle-HasCredentials users memory login_config alice first "alice" refl login_run.0

abbrev after_mallory : Login.State String memory
after_mallory = (Login.handle users memory login_config mallory first).0

handle-throttled_example : Login.handle users memory login_config alice after_mallory ≡ (
  Login.with_code users memory login_config Login.error_wait_retry after_mallory,
  true,
  some Login.wait_for_delay,
)
handle-throttled_example =
    handle-throttled users memory login_config mallory first refl refl (memory-CacheLaws LoginDelay)
      Login.invalid_password login_run.1 refl alice refl after_mallory refl

handle-LooksAlike_example :
    LooksAlike new_context
      (Login.handle nobody memory login_config (login_request "alice" "") first)
      (Login.handle users memory login_config (login_request "alice" "") first)
handle-LooksAlike_example =
    handle-LooksAlike memory login_config (login_request "alice" "") first nobody users "alice"
      "hash" "salt" refl refl refl refl (unfold Login.delay_cache_key in refl) refl refl refl refl
