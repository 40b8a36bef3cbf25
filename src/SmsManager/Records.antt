-- ===== src/SmsManager/Records.antt =====
-- SmsManagerBase.Send: the record of a message.
use evgo.Shared.{
  ◌≡◌, refl, inl, inr, some, none, Option, true, false, Bool, if◌then◌else◌, String, not, arith,
}
use evgo.Auth.Context.{Result-cases, ok}
use evgo.SmsManager.{
  SmsManagerBase, find_provider, sending, SmsMessage, Services, Sent, stored_message, hand_over,
  send, with_response, written, success, fail, Response,
}

module _ {P : Type 0} (services : Services P) (manager : SmsManagerBase P) where
  abbrev pub chosen : String → P
  chosen recipient = find_provider manager.default_provider manager.destinations recipient

  answered :
      (response : Option Response × Bool) (sms : SmsMessage)
      → ((with_response services response sms).id ≡ sms.id)
        × ((with_response services response sms).status ≡ (if response.1 then success else fail))
  answered (some r, true) sms = (refl, refl)
  answered (some r, false) sms = (refl, refl)
  answered (none, true) sms = (refl, refl)
  answered (none, false) sms = (refl, refl)

  -- Before the message went to the provider, a record with the status "sending" was created, the id of
  -- the record is returned, and the answer of the provider decides whether there is an error, and
  -- the status that the record is updated to.
  pub record IsRecorded (new_id message recipient : String) (db : services.Db)
      (out : Sent services.Db P) : Type 0 where
    sms : SmsMessage
    db' : services.Db
    stored : stored_message services manager message ≡ ok sms.message
    created : services.create db sms ≡ ok db'
    phone : sms.phone ≡ recipient
    provider : sms.provider ≡ services.name (chosen recipient)
    status : sms.status ≡ sending
    sms_id : sms.id ≡ new_id
    final : SmsMessage
    final_id : final.id ≡ new_id
    final_status :
        final.status
        ≡ (if (services.send (chosen recipient) message recipient new_id).1 then success else fail)
    updated : out.db ≡ written services db' (services.update db' final)
    id : out.id ≡ new_id
    failed : out.failed ≡ not (services.send (chosen recipient) message recipient new_id).1

  -- A message that is handed to a provider is the given one, to the recipient and by the chosen
  -- provider, a record of it with the status of sending was created before, the id of that record
  -- is returned, there is an error beside it exactly if the provider has not accepted the message,
  -- and the database is that after the record was updated to the status of success or of failure
  -- accordingly, or the one before if that update failed.
  pub send-IsRecorded :
      (new_id message recipient : String) (db : services.Db) (p : P) (handed_message phone : String)
      → (send services manager new_id message recipient db).handed ≡ some (p, handed_message, phone)
      → (p ≡ chosen recipient)
        × (handed_message ≡ message)
        × (phone ≡ recipient)
        × IsRecorded new_id message recipient db (send services manager new_id message recipient db)
  unfolding send hand_over
  send-IsRecorded new_id message recipient db p handed_message phone handed =
      elim (Result-cases (stored_message services manager message)) [
        | inl failed ↦ ground arith
        | inr (stored, encrypted) ↦
            let sms : SmsMessage = record {
              id = new_id;
              phone = recipient;
              provider = services.name (chosen recipient);
              message = stored;
              status = sending;
              foreign_id = "";
              raw_response = "";
            } in
            elim (Result-cases (services.create db sms)) [
              | inl failed ↦ ground arith
              | inr (db', created) ↦ (
                ground arith,
                ground arith,
                ground arith,
                record {
                  sms = sms;
                  db' = db';
                  stored = encrypted;
                  created = created;
                  phone = refl;
                  provider = refl;
                  status = refl;
                  sms_id = refl;
                  final =
                      with_response services
                        (services.send (chosen recipient) message recipient new_id) sms;
                  final_id =
                      (answered (services.send (chosen recipient) message recipient new_id) sms).0;
                  final_status =
                      (answered (services.send (chosen recipient) message recipient new_id) sms).1;
                  updated = ground (arith, encrypted, created);
                  id = ground arith;
                  failed = ground arith;
                },
              )
            ]
      ]
