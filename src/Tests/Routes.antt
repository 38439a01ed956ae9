-- ===== src/Tests/Routes.antt =====
-- The message router at concrete inputs.
use mini_dds.Prelude.{
  ℕ, suc, ◌≡◌, ◌≢◌, refl, List, [], ◌∷◌, ◌++◌, map, length, Bool, true, false, ◌&&◌, ◌||◌,
  if◌then◌else◌, Option, none, some,
}
use mini_dds.Transport.{Datagram}
use mini_dds.Rtps.Types.{EntityId, entity_id_eq}
use mini_dds.Rtps.Outcome.{is_unknown_entity}
use mini_dds.Rtps.Router.{
  Router, Channel, RouterError, receive_failed, reader, open_router, add_channel, stop, fail,
  kind_eq,
}
use mini_dds.Rtps.Router.Target.{RouteTarget, route_target}
use mini_dds.Rtps.Router.Dispatch.{is_targeted, push, dispatch}
use mini_dds.Rtps.Router.Endpoints.{datagram, timeout, error, receive}
use mini_dds.Rtps.Router.Steps.{at, added, Reach, here, next, start}
use mini_dds.Rtps.Router.Unique.{IsUnique}
use mini_dds.Rtps.Router.Registration.{Reach-IsUnique}
use mini_dds.Rtps.Router.Delivery.{points_to, dispatch-heap}
use mini_dds.Rtps.Router.Named.{targeted_unique}
use mini_dds.Rtps.Router.Closing.{receive-closing, receive_times, fail-receive_times}
use mini_dds.Tests.Values.{reader_one, address_one}
use mini_dds.Tests.Readers.{sent_bytes}

abbrev registered : Router
registered = (add_channel reader_one reader (open_router true)).1

registered-Reach : Reach (start true) (at registered [])
registered-Reach = next here (added (open_router true) [] reader_one reader)

Reach-IsUnique_example : IsUnique registered
Reach-IsUnique_example = Reach-IsUnique true {s = at registered []} registered-Reach

abbrev sent : Datagram
sent = record { payload = sent_bytes; source = address_one }

abbrev to_reader : RouteTarget
to_reader = record { kind = reader; entity_id = reader_one }

sent_target : route_target sent.payload ≡ some to_reader
unfolding route_target mini_dds.Rtps.Message.decode_message_header mini_dds.Prelude.bytes_eq
    mini_dds.Rtps.Message.decode_submessage_header mini_dds.Rtps.Data.decode_data_submessage
    mini_dds.Rtps.Data.decode_data_body mini_dds.Rtps.Data.FixedFields.read_fixed
    mini_dds.Rtps.Data.FixedFields.fixed_fields mini_dds.Cdr.Reader.read_uint16
    mini_dds.Cdr.Reader.read_unsigned mini_dds.Cdr.Reader.align mini_dds.Cdr.Reader.require
    mini_dds.Rtps.Codec.read_entity_id mini_dds.Cdr.Reader.read_bytes mini_dds.Cdr.Reader.read_int32
    mini_dds.Cdr.Reader.read_uint32 mini_dds.Rtps.Data.decode_data_fields
    mini_dds.Cdr.Reader.read_little mini_dds.Rtps.Types.sle64
    mini_dds.Rtps.Codec.make_sequence_number
sent_target = refl

dispatch-heap_example : (dispatch sent registered).heap 0 ≡ (
    if points_to 0 registered.channels
      && kind_eq (registered.heap 0).kind to_reader.kind
      && (is_unknown_entity to_reader.entity_id
          || entity_id_eq (registered.heap 0).entity_id to_reader.entity_id)
      && (registered.heap 0).active
    then record (registered.heap 0) { datagrams = (registered.heap 0).datagrams ++ sent ∷ [] }
    else registered.heap 0)
dispatch-heap_example =
    dispatch-heap sent to_reader registered 0
      (Reach-IsUnique true {s = at registered []} registered-Reach) sent_target

is_listed : points_to 0 registered.channels ≡ true
unfolding add_channel open_router mini_dds.Rtps.Router.new_router
is_listed = refl

is_named : is_targeted to_reader (registered.heap 0) ≡ true
unfolding is_targeted mini_dds.Rtps.Router.kind_eq add_channel open_router
    mini_dds.Rtps.Router.new_router mini_dds.Rtps.Router.put mini_dds.Rtps.Types.entity_id_eq
    mini_dds.Prelude.bytes_eq
is_named = refl

is_active : (registered.heap 0).active ≡ true
unfolding add_channel open_router mini_dds.Rtps.Router.new_router mini_dds.Rtps.Router.put
is_active = refl

targeted_unique_example : ◌≡◌ {A = ℕ} 0 0
unfolding mini_dds.Rtps.Types.entity_id_eq mini_dds.Prelude.bytes_eq
targeted_unique_example =
    targeted_unique to_reader registered 0 0
      (Reach-IsUnique true {s = at registered []} registered-Reach) refl (is_listed, is_listed)
      (is_named, is_named) (is_active, is_active)

receive-closing_example :
    ((receive 0 (stop registered)).0 ≢ timeout)
    × ((receive 0 (fail receive_failed registered)).0 ≢ timeout)
receive-closing_example = receive-closing registered 0 receive_failed is_listed

abbrev routed : Router
routed = dispatch sent registered

is_routed : points_to 0 routed.channels ≡ true
unfolding dispatch route_target mini_dds.Rtps.Message.decode_message_header
    mini_dds.Prelude.bytes_eq mini_dds.Rtps.Message.decode_submessage_header
    mini_dds.Rtps.Data.decode_data_submessage mini_dds.Rtps.Data.decode_data_body
    mini_dds.Rtps.Data.FixedFields.read_fixed mini_dds.Rtps.Data.FixedFields.fixed_fields
    mini_dds.Cdr.Reader.read_uint16 mini_dds.Cdr.Reader.read_unsigned mini_dds.Cdr.Reader.align
    mini_dds.Cdr.Reader.require mini_dds.Rtps.Codec.read_entity_id mini_dds.Cdr.Reader.read_bytes
    mini_dds.Cdr.Reader.read_int32 mini_dds.Cdr.Reader.read_uint32
    mini_dds.Rtps.Data.decode_data_fields mini_dds.Cdr.Reader.read_little mini_dds.Rtps.Types.sle64
    mini_dds.Rtps.Codec.make_sequence_number mini_dds.Rtps.Router.Dispatch.push_all
    mini_dds.Rtps.Router.Dispatch.select add_channel open_router mini_dds.Rtps.Router.new_router
    is_targeted mini_dds.Rtps.Router.kind_eq mini_dds.Rtps.Router.put
    mini_dds.Rtps.Types.entity_id_eq
is_routed = refl

fail-receive_times_example :
    receive_times (suc (length (routed.heap 0).datagrams)) 0 (fail receive_failed routed)
    ≡ map datagram (routed.heap 0).datagrams ++ error receive_failed ∷ []
fail-receive_times_example = fail-receive_times routed 0 receive_failed is_routed

one_routed : length (routed.heap 0).datagrams ≡ 1
unfolding dispatch route_target mini_dds.Rtps.Message.decode_message_header
    mini_dds.Prelude.bytes_eq mini_dds.Rtps.Message.decode_submessage_header
    mini_dds.Rtps.Data.decode_data_submessage mini_dds.Rtps.Data.decode_data_body
    mini_dds.Rtps.Data.FixedFields.read_fixed mini_dds.Rtps.Data.FixedFields.fixed_fields
    mini_dds.Cdr.Reader.read_uint16 mini_dds.Cdr.Reader.read_unsigned mini_dds.Cdr.Reader.align
    mini_dds.Cdr.Reader.require mini_dds.Rtps.Codec.read_entity_id mini_dds.Cdr.Reader.read_bytes
    mini_dds.Cdr.Reader.read_int32 mini_dds.Cdr.Reader.read_uint32
    mini_dds.Rtps.Data.decode_data_fields mini_dds.Cdr.Reader.read_little mini_dds.Rtps.Types.sle64
    mini_dds.Rtps.Codec.make_sequence_number mini_dds.Rtps.Router.Dispatch.push_all
    mini_dds.Rtps.Router.Dispatch.select add_channel open_router mini_dds.Rtps.Router.new_router
    is_targeted mini_dds.Rtps.Router.kind_eq mini_dds.Rtps.Router.put
    mini_dds.Rtps.Types.entity_id_eq push
one_routed = refl
