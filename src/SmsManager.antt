-- ===== src/SmsManager.antt =====
-- pkg/sms/sms_manager.go: the choice of a provider by the prefix of a phone number, and the record that is
-- kept of a message. The providers, the cipher and the database are parameters.
pub mod Choice
pub mod Records
use Prim.Native.String.{len}
use text.Mathlib.Text.{starts_with}
use evgo.Shared.{
  ℕ, Bool, true, false, not, Option, none, some, List, [], ◌∷◌, String, string_eq, ◌==◌, get,
  if◌then◌else◌, ltb, leb,
}
use evgo.Auth.Context.{Result, ok, err}

pub record SmsDestination (P : Type 0) : Type 0 where
  pub prefix : String
  pub provider : P

pub record SmsManagerBase (P : Type 0) : Type 0 where
  pub destinations : List (SmsDestination P)
  pub default_provider : P
  pub encrypt_message_store : Bool

module _ {P : Type 0} where
  abbrev pub longer_or_equal : SmsDestination P → SmsDestination P → Bool
  longer_or_equal a b = leb (len b.prefix) (len a.prefix)

  -- `sort.SliceStable` with the longer prefix first: one that is equal stays behind
  unfoldable pub insert : SmsDestination P → List (SmsDestination P) → List (SmsDestination P)
  insert d [] = d ∷ []
  insert d (e ∷ es) = if longer_or_equal d e then d ∷ e ∷ es else e ∷ insert d es

  unfoldable pub sort_destinations : List (SmsDestination P) → List (SmsDestination P)
  sort_destinations [] = []
  sort_destinations (d ∷ ds) = insert d (sort_destinations ds)

  abbrev prepend :
      Option P → String → Option (List (SmsDestination P)) → Option (List (SmsDestination P))
  prepend (some provider) prefix (some ds) =
      some (record { prefix = prefix; provider = provider } ∷ ds)
  prepend (some provider) prefix none = none
  prepend none prefix ds = none

  -- the loop that gives each destination its provider; an unknown one is an error
  unfoldable pub set_destinations :
      List (String × P) → List (String × String) → Option (List (SmsDestination P))
  set_destinations providers [] = some []
  set_destinations providers ((prefix, name) ∷ configs) =
      prepend (get name providers) prefix (set_destinations providers configs)

  abbrev with_destinations : P → Bool → Option (List (SmsDestination P)) → Option (SmsManagerBase P)
  with_destinations default_provider encrypts none = none
  with_destinations default_provider encrypts (some ds) = some (record {
    destinations = sort_destinations ds;
    default_provider = default_provider;
    encrypt_message_store = encrypts;
  })

  -- `Init` with the configuration loaded: the providers by name, the name of the default one, and the
  -- prefix and provider of each destination
  unfoldable pub init :
      List (String × P) → String → List (String × String) → Bool → Option (SmsManagerBase P)
  init providers default_name configs encrypts = elim (get default_name providers) [
    | none ↦ none
    | some default_provider ↦
        with_destinations default_provider encrypts (set_destinations providers configs)
  ]

  -- the loop of `Send` over the destinations
  unfoldable pub find_provider : P → List (SmsDestination P) → String → P
  find_provider default_provider [] recipient = default_provider
  find_provider default_provider (d ∷ ds) recipient =
      if starts_with recipient d.prefix
      then d.provider
      else find_provider default_provider ds recipient

pub data Status : Type 0 where
  sending success fail : Status

-- SmsMessage, as far as `Send` changes it after its creation
pub record SmsMessage : Type 0 where
  pub id : String
  pub phone : String
  pub provider : String
  pub message : String
  pub status : Status
  pub foreign_id : String
  pub raw_response : String

-- ProviderResponse
pub record Response : Type 0 where
  pub raw_content : String
  pub provider_message_id : String

pub record Services (P : Type 0) : Type 1 where
  pub Db : Type 0
  pub name : P → String
  pub send : P → String → String → String → Option Response × Bool
  pub encrypt : String → Result String
  pub create : Db → SmsMessage → Result Db
  pub update : Db → SmsMessage → Result Db

-- The outcome of `Send`: the id, which is empty before the record is created, and whether there is an
-- error, which are returned side by side; the message handed to a provider; and the database
pub record Sent (Db P : Type 0) : Type 0 where
  pub id : String
  pub failed : Bool
  pub handed : Option (P × String × String)
  pub db : Db

module _ {P : Type 0} (services : Services P) where
  abbrev pub with_response : Option Response × Bool → SmsMessage → SmsMessage
  with_response (some r, true) sms = record sms {
    raw_response = r.raw_content;
    foreign_id = r.provider_message_id;
    status = success;
  }
  with_response (some r, false) sms = record sms {
    raw_response = r.raw_content;
    foreign_id = r.provider_message_id;
    status = fail;
  }
  with_response (none, true) sms = record sms { status = success }
  with_response (none, false) sms = record sms { status = fail }

  abbrev pub written : services.Db → Result services.Db → services.Db
  written old (ok new) = new
  written old err = old

  -- the part of `Send` after the record is created
  unfoldable pub hand_over : P → String → SmsMessage → services.Db → Sent services.Db P
  hand_over provider message sms db =
      let response = services.send provider message sms.phone sms.id in
      let sms' = with_response response sms in
      record {
        id = sms.id;
        failed = not response.1;
        handed = some (provider, message, sms.phone);
        db = written db (services.update db sms');
      }

  abbrev stored_message : SmsManagerBase P → String → Result String
  stored_message manager message =
      if manager.encrypt_message_store then services.encrypt message else ok message

  unfoldable pub send :
      SmsManagerBase P → String → String → String → services.Db → Sent services.Db P
  send manager new_id message recipient db =
      let provider = find_provider manager.default_provider manager.destinations recipient in
      elim (stored_message manager message) [
        | err ↦ record { id = ""; failed = true; handed = none; db = db }
        | ok stored ↦
            let sms : SmsMessage = record {
              id = new_id;
              phone = recipient;
              provider = services.name provider;
              message = stored;
              status = sending;
              foreign_id = "";
              raw_response = "";
            } in
            elim (services.create db sms) [
              | err ↦ record { id = ""; failed = true; handed = none; db = db }
              | ok db' ↦ hand_over provider message sms db'
            ]
      ]
