-- ===== src/Tests/Values.antt =====
-- Access control (pkg/access_control), the SMS manager (pkg/sms) and months (pkg/utils/month.go) at
-- concrete inputs.
use evgo.Shared.{
  ◌+◌, ◌≡◌, refl, ◌⊎◌, get, true, false, ◌&&◌, none, some, List, [], ◌∷◌, String, string_eq, ◌==◌,
  if◌then◌else◌, All, arith,
}
use evgo.Auth.Context.{ok, err}
use evgo.Access.{
  Access, Resource, Rules, check, zip_bits, check_access, http_method_to_access,
  access_to_http_method,
}
use evgo.Access.Decision.{Candidate, check_access_first}
use text.Mathlib.Text.{starts_with}
use evgo.SmsManager.{
  SmsDestination, SmsManagerBase, SmsMessage, Services, init, set_destinations, sort_destinations,
  insert, find_provider, send, hand_over,
}
use evgo.SmsManager.Choice.{IsLongest, find_provider-IsLongest}
use evgo.SmsManager.Records.{chosen, IsRecorded, send-IsRecorded}
use evgo.Month.{year_of, month_of, prev, next}
use evgo.Month.Order.{IsMonth, index, next-IsMonth}

methods_run :
    (access_to_http_method (http_method_to_access "GET") ≡ "GET")
    × (access_to_http_method (http_method_to_access "POST") ≡ "POST")
    × (access_to_http_method (http_method_to_access "PUT") ≡ "PUT")
    × (access_to_http_method (http_method_to_access "PATCH") ≡ "PATCH")
    × (access_to_http_method (http_method_to_access "DELETE") ≡ "DELETE")
unfolding access_to_http_method http_method_to_access check zip_bits
methods_run = (refl, refl, refl, refl, refl)

abbrev allow : Access
allow t = true

abbrev deny : Access
deny t = false

abbrev resource : Resource
resource = record { paths = "/a" ∷ "/a/b" ∷ []; is_owner = false; owner_access = deny }

-- one rule, for a tag of the upper path, the lower path, and an editor
abbrev rules : Rules
rules = record {
  resource_tags = λ path. ok (if path == "/a" then "draft" ∷ [] else []);
  find_rule = λ path tag role.
      ok (if path == "/a/b" && (tag == "draft" && role == "editor") then some allow else none);
}

abbrev roles : List String
roles = "reader" ∷ "editor" ∷ []

abbrev tags_of : String → List String
tags_of path = if path == "/a" then "draft" ∷ [] else []

abbrev before : List Candidate
before = ("/a/b", "", "reader") ∷ ("/a/b", "", "editor") ∷ ("/a/b", "draft", "reader") ∷ []

abbrev after : List Candidate
after =
    ("/a/b", "", "reader")
    ∷ ("/a/b", "", "editor")
    ∷ ("/a", "draft", "reader")
    ∷ ("/a", "draft", "editor")
    ∷ ("/a", "", "reader")
    ∷ ("/a", "", "editor")
    ∷ []

check_access_first_example : check_access rules deny resource roles 1 ≡ ok true
check_access_first_example =
    check_access_first rules deny resource roles 1 tags_of before after ("/a/b", "draft", "editor")
      allow refl (refl, (refl, tt)) refl (refl, (refl, (refl, tt))) refl

abbrev reader : List String
reader = "reader" ∷ []

december : IsMonth 202_412
unfolding year_of month_of
december = record { year_low = omega arith; low = omega arith; high = omega arith }

next-IsMonth_example :
    IsMonth (next 202_412)
    × (index (next 202_412) ≡ index 202_412 + 1)
    × (prev (next 202_412) ≡ 202_412)
next-IsMonth_example = next-IsMonth 202_412 december

abbrev german_first : List (SmsDestination String)
german_first =
    record { prefix = "4"; provider = "near" } ∷ record { prefix = "49"; provider = "german" } ∷ []

abbrev sms_manager : SmsManagerBase String
sms_manager = record {
  destinations = sort_destinations german_first;
  default_provider = "far";
  encrypt_message_store = false;
}

init_run :
    init
      (("near", "near") ∷ ("german", "german") ∷ ("far", "far") ∷ [])
      "far"
      (("4", "near") ∷ ("49", "german") ∷ [])
      false
    ≡ some sms_manager
unfolding init set_destinations get
init_run = refl

provider_run : find_provider "far" sms_manager.destinations "4912" ≡ "german"
unfolding find_provider sort_destinations insert
provider_run = refl

find_provider-IsLongest_example :
    let chosen = find_provider "far" (sort_destinations german_first) "4912" in
    ((chosen ≡ "far")
      × All (λ (d : SmsDestination String). starts_with "4912" d.prefix ≡ false) german_first)
    ⊎ IsLongest "4912" german_first chosen
find_provider-IsLongest_example = find_provider-IsLongest "far" german_first "4912"

abbrev sms_services : Services String
sms_services = record {
  Db = List SmsMessage;
  name = λ p. p;
  send = λ p message phone id. (none, true);
  encrypt = λ text. err;
  create = λ db sms. ok (sms ∷ db);
  update = λ db sms. ok (sms ∷ db);
}

abbrev code : String
code = "code 1"

abbrev recipient : String
recipient = "4912"

send-IsRecorded_example :
    ("german" ≡ chosen sms_services sms_manager "4912")
    × (code ≡ code)
    × (recipient ≡ recipient)
    × IsRecorded sms_services sms_manager "m1" code recipient []
        (send sms_services sms_manager "m1" code recipient [])
send-IsRecorded_example =
    send-IsRecorded sms_services sms_manager "m1" code recipient [] "german" code recipient
      (unfold send hand_over find_provider sort_destinations insert in refl)
