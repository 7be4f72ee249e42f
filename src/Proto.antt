-- ===== src/Proto.antt =====
-- The messages of the angzarr protocol, with the fields that the Go sources read or write.
-- A pointer to a message is an `Option`, the members of a repeated field are never nil, and a
-- `oneof` has a case for each member that the sources name. The generated Go types are not part of
-- the repository; their getters on nil receivers are written out where the code calls them.
use angzarr_client_go.Prelude.{ℕ, String, Option, none, some, List, Bool}

abbrev pub Bytes : Type 0
Bytes = List ℕ

-- `google.protobuf.Any`.
pub record Any : Type 0 where
  pub type_url : String
  pub value : Bytes

-- `google.protobuf.Timestamp`: seconds since 1970 and nanoseconds within the second.
pub record Timestamp : Type 0 where
  pub seconds : ℕ
  pub nanos : ℕ

pub record ProtoUuid : Type 0 where
  pub value : Bytes

pub record DomainDivergence : Type 0 where
  pub domain : String
  pub sequence : ℕ

pub record ProtoEdition : Type 0 where
  pub name : String
  pub divergences : List DomainDivergence

pub record Cover : Type 0 where
  pub domain : String
  pub root : Option ProtoUuid
  pub correlation_id : String
  pub edition : Option ProtoEdition

pub record AngzarrDeferred : Type 0 where
  pub source : Option Cover
  pub source_seq : ℕ

pub data SequenceType : Type 0 where
  unset : SequenceType
  sequence : ℕ → SequenceType
  angzarr_deferred : AngzarrDeferred → SequenceType
  external_deferred : String → SequenceType

pub record PageHeader : Type 0 where
  pub sequence_type : SequenceType

-- The payload's other member, an external reference, reads as `none`.
pub record EventPage : Type 0 where
  pub header : Option PageHeader
  pub event : Option Any
  pub created_at : Option Timestamp

pub record Snapshot : Type 0 where
  pub sequence : ℕ
  pub state : Option Any

pub record EventBook : Type 0 where
  pub cover : Option Cover
  pub pages : List EventPage
  pub snapshot : Option Snapshot
  pub next_sequence : ℕ

pub record CommandPage : Type 0 where
  pub header : Option PageHeader
  pub command : Option Any
  pub merge_strategy : ℕ

pub record CommandBook : Type 0 where
  pub cover : Option Cover
  pub pages : List CommandPage

pub record ContextualCommand : Type 0 where
  pub command : Option CommandBook
  pub events : Option EventBook

pub record CommandResponse : Type 0 where
  pub events : Option EventBook

pub record SequenceRange : Type 0 where
  pub lower : ℕ
  pub upper : Option ℕ

pub data PointInTime : Type 0 where
  as_of_sequence : ℕ → PointInTime
  as_of_time : Timestamp → PointInTime

pub record TemporalQuery : Type 0 where
  pub point_in_time : PointInTime

pub data Selection : Type 0 where
  unset : Selection
  range : SequenceRange → Selection
  temporal : TemporalQuery → Selection

pub record Query : Type 0 where
  pub cover : Option Cover
  pub selection : Selection

pub record Notification : Type 0 where
  pub cover : Option Cover
  pub payload : Option Any

pub record RejectionNotification : Type 0 where
  pub rejected_command : Option CommandBook
  pub rejection_reason : String

pub record RevocationResponse : Type 0 where
  pub emit_system_revocation : Bool
  pub send_to_dead_letter_queue : Bool
  pub escalate : Bool
  pub abort : Bool
  pub reason : String

pub data BusinessResponse : Type 0 where
  events : Option EventBook → BusinessResponse
  revocation : RevocationResponse → BusinessResponse
  notification : Notification → BusinessResponse

pub record SagaResponse : Type 0 where
  pub commands : List CommandBook
  pub events : List EventBook

pub record ProcessManagerHandleResponse : Type 0 where
  pub commands : List CommandBook
  pub process_events : List EventBook

pub record Projection : Type 0 where
  pub cover : Option Cover
  pub projector : String
  pub sequence : ℕ
  pub projection : Option Any

-- The messages that the sources write where they write `&pb.EventBook{}` and `&pb.Cover{}`.
abbrev pub empty_event_book : EventBook
empty_event_book = record { cover = none; pages = List.[]; snapshot = none; next_sequence = 0 }

abbrev pub empty_cover : Cover
empty_cover = record { domain = ""; root = none; correlation_id = ""; edition = none }

-- `header.GetSequence()`: 0 where the oneof holds another member.
abbrev pub get_sequence : PageHeader → ℕ
get_sequence h = elim h.sequence_type [ SequenceType.sequence n ↦ n | _ ↦ 0 ]

-- `header.GetAngzarrDeferred()`.
abbrev pub get_angzarr_deferred : PageHeader → Option AngzarrDeferred
get_angzarr_deferred h = elim h.sequence_type [
  | SequenceType.angzarr_deferred d ↦ some d
  | _ ↦ none
]

-- `&pb.PageHeader{SequenceType: &pb.PageHeader_Sequence{Sequence: seq}}`.
abbrev pub sequence_header : ℕ → PageHeader
sequence_header seq = record { sequence_type = SequenceType.sequence seq }

-- The requests of the gRPC services. A destination map that was never set is nil.
pub record ReplayRequest : Type 0 where
  pub base_snapshot : Option Snapshot
  pub events : List EventPage

pub record SagaHandleRequest : Type 0 where
  pub source : Option EventBook
  pub destination_sequences : Option (List (String × ℕ))

pub record ProcessManagerHandleRequest : Type 0 where
  pub trigger : Option EventBook
  pub process_state : Option EventBook
  pub destination_sequences : Option (List (String × ℕ))

-- `SyncMode`.
pub data SyncMode : Type 0 where
  sync_mode_async sync_mode_simple sync_mode_cascade : SyncMode

-- `CascadeErrorMode`, with the one member that the sources name.
pub data CascadeErrorMode : Type 0 where
  cascade_error_fail_fast : CascadeErrorMode

-- A `cascade_error_mode` that the code does not set is none.
pub record CommandRequest : Type 0 where
  pub command : Option CommandBook
  pub sync_mode : SyncMode
  pub cascade_error_mode : Option CascadeErrorMode
