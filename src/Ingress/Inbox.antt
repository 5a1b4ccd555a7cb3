-- ===== src/Ingress/Inbox.antt =====
-- event_ingress/repository.py, on agent_event_inbox and agent_event_rejections (migration 001).
-- INSERT IGNORE skips a row whose key is taken, and stores an empty value for a NULL that the
-- column does not allow.
use factory_ops.Common.{
  ℕ, zero, suc, String, Option, none, some, [], ◌∷◌, Bool, true, false, ◌&&◌, not, if◌then◌else◌,
  ◌==◌, ◌=s◌, find, any,
}
use factory_ops.Session.{ok, err, inbox_state_error, begin}
use factory_ops.Database.{Database, Action, Tx}
use factory_ops.Ingress.Model.{
  Bytes, KafkaRecord, DecodedEvent, IngressOutcome, accepted, duplicate_identical, rejected_invalid,
  rejected_conflicting, DecodeFailure, InboxRow, RejectionRow,
}

abbrev pub same_bytes : Bytes → Bytes → Bool
same_bytes [] [] = true
same_bytes (x ∷ xs) (y ∷ ys) = x == y && same_bytes xs ys
same_bytes _ _ = false

abbrev value_bytes : Option Bytes → Bytes
value_bytes none = []
value_bytes (some bytes) = bytes

-- `text[:n]`
abbrev pub first : ℕ → String → String
first zero text = ""
first (suc n) String.[] = ""
first (suc n) (String.◌∷◌ c text) = String.◌∷◌ c (first n text)

-- `_event_parameters`
unfoldable pub inbox_row : DecodedEvent → InboxRow
inbox_row event = record {
  event_id = event.event_id;
  event_type = event.event_type;
  contract_version = event.contract_version;
  topic = event.source.topic;
  partition = event.source.partition;
  offset = event.source.offset;
  message_key = event.message_key;
  raw_payload = value_bytes event.source.value;
  canonical_sha256 = event.canonical_sha256;
}

abbrev pub has_event_id : String → InboxRow → Bool
has_event_id event_id row = row.event_id =s event_id

abbrev inbox_source : KafkaRecord → InboxRow → Bool
inbox_source source row =
    row.topic =s source.topic && row.partition == source.partition && row.offset == source.offset

abbrev pub rejection_source : KafkaRecord → RejectionRow → Bool
rejection_source source row =
    row.topic =s source.topic && row.partition == source.partition && row.offset == source.offset

unfoldable pub inbox_keys_free : DecodedEvent → Database → Bool
inbox_keys_free event db =
    not (any (has_event_id event.event_id) db.inbox)
    && not (any (inbox_source event.source) db.inbox)

-- `_insert_rejection`
unfoldable pub insert_rejection :
    KafkaRecord → String → String → Option String → Bytes → Database → Database
insert_rejection source reason_code reason_detail event_id payload_sha256 db =
    if any (rejection_source source) db.rejections
    then db
    else record db { rejections = rejection ∷ db.rejections }
  where
    rejection : RejectionRow
    rejection = record {
      topic = source.topic;
      partition = source.partition;
      offset = source.offset;
      event_id = event_id;
      reason_code = reason_code;
      reason_detail = first 1024 reason_detail;
      payload_sha256 = payload_sha256;
    }

-- After an INSERT that was ignored.
unfoldable pub compare_existing : DecodedEvent → Option InboxRow → Tx IngressOutcome
compare_existing event none db =
    (err (inbox_state_error "inbox insert was ignored without an existing event_id"), db)
compare_existing event (some existing) db =
    if same_bytes existing.canonical_sha256 event.canonical_sha256
    then (ok duplicate_identical, db)
    else (
      ok rejected_conflicting,
      insert_rejection event.source "duplicate_conflicting"
          "same event_id has different canonical content" (some event.event_id)
          event.canonical_sha256 db,
    )

unfoldable pub accept_event : DecodedEvent → Tx IngressOutcome
accept_event event db =
    if inbox_keys_free event db
    then (ok accepted, record db { inbox = inbox_row event ∷ db.inbox })
    else compare_existing event (find (has_event_id event.event_id) db.inbox) db

unfoldable pub accept : DecodedEvent → Action IngressOutcome
accept event = begin (accept_event event)

unfoldable pub reject_record : KafkaRecord → DecodeFailure → Tx IngressOutcome
reject_record source failure db = (
  ok rejected_invalid,
  insert_rejection source failure.code failure.detail failure.event_id failure.payload_sha256 db,
)

unfoldable pub reject : KafkaRecord → DecodeFailure → Action IngressOutcome
reject source failure = begin (reject_record source failure)
