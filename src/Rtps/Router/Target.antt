-- ===== src/Rtps/Router/Target.antt =====
-- `route_target` of rtps/ParticipantMessageRouter.cpp.
use mini_dds.Prelude.{
  ℕ, List, drop, length, not, ◌||◌, leb, ◌==◌, if◌then◌else◌, Option, none, some, Result, ok, err,
}
use mini_dds.Rtps.Types.{EntityId}
use mini_dds.Rtps.Codec.{Error}
use mini_dds.Rtps.SubmessageKind
use mini_dds.Rtps.Message.{
  MessageHeader, SubmessageHeader, message_header_size, decode_message_header,
  decode_submessage_header,
}
use mini_dds.Rtps.Data.{decode_data_submessage}
use mini_dds.Rtps.Reliability.Heartbeat.{decode_heartbeat_submessage}
use mini_dds.Rtps.Reliability.AckNack.{decode_acknack_submessage}
use mini_dds.Rtps.Reliability.Gap.{decode_gap_submessage}
use mini_dds.Rtps.Router.{RoutedEndpointKind, reader, writer}

pub record RouteTarget : Type 0 where
  pub kind : RoutedEndpointKind
  pub entity_id : EntityId

-- The target that a field of a submessage names, when the submessage decodes.
abbrev target :
    {A : Type 0} → RoutedEndpointKind → (A → EntityId) → Result Error A → Option RouteTarget
target kind field (err e) = none
target kind field (ok submessage) = some (record { kind = kind; entity_id = field submessage })

abbrev of_kind : ℕ → List ℕ → Option RouteTarget
of_kind kind submessage =
    if kind == SubmessageKind.user_data
    then target reader (λ submessage. submessage.reader_id) (decode_data_submessage submessage)
    else if kind == SubmessageKind.heartbeat
    then target reader (λ submessage. submessage.reader_id) (decode_heartbeat_submessage submessage)
    else if kind == SubmessageKind.gap
    then target reader (λ submessage. submessage.reader_id) (decode_gap_submessage submessage)
    else if kind == SubmessageKind.acknack
    then target writer (λ submessage. submessage.writer_id) (decode_acknack_submessage submessage)
    else none

abbrev of_submessage : Option SubmessageHeader → List ℕ → Option RouteTarget
of_submessage none submessage = none
of_submessage (some header) submessage = of_kind header.kind submessage

abbrev of_message : Option MessageHeader → List ℕ → Option RouteTarget
of_message none payload = none
of_message (some header) payload =
    let submessage = drop message_header_size payload in
    if not (header.version.major == 2) || leb (length payload) message_header_size
    then none
    else of_submessage (decode_submessage_header submessage) submessage

unfoldable pub route_target : List ℕ → Option RouteTarget
route_target payload = of_message (decode_message_header payload) payload
