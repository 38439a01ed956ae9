-- ===== src/Rtps/Router.antt =====
-- ParticipantMessageRouter of rtps/ParticipantMessageRouter.h and ParticipantMessageRouter.cpp: its
-- channels, and what registers, removes and closes them.
pub mod Target
pub mod Dispatch
pub mod Endpoints
pub mod Steps
pub mod Unique
pub mod Registration
pub mod Delivery
pub mod Named
pub mod Closing
use mini_dds.Prelude.{
  ℕ, ◌+◌, List, [], ◌∷◌, ◌++◌, length, any_of, remove_if, Bool, true, false, not, ◌&&◌, ◌||◌, ◌==◌,
  if◌then◌else◌, Option, none, some,
}
use mini_dds.Transport.{Text, Datagram}
use mini_dds.Rtps.Types.{EntityId, entity_id_eq, entity_id_default}

pub data RoutedEndpointKind : Type 0 where
  reader writer : RoutedEndpointKind

unfoldable pub kind_eq : RoutedEndpointKind → RoutedEndpointKind → Bool
kind_eq reader reader = true
kind_eq reader writer = false
kind_eq writer reader = false
kind_eq writer writer = true

-- The texts of `last_error`: one constructor for each.
pub data RouterError : Type 0 where
  not_running already_registered transport_not_open receive_failed endpoint_closed unavailable :
      RouterError
  transport : Text → RouterError

-- A Channel without its lock.
pub record Channel : Type 0 where
  pub entity_id : EntityId
  pub kind : RoutedEndpointKind
  pub datagrams : List Datagram
  pub active : Bool
  pub error : Option RouterError

-- The channels are shared by pointers, which stay valid: a pointer is a number below `allocated`, and
-- `heap` holds what it points to. `channels` are the pointers that the router keeps.
pub record Router : Type 0 where
  pub heap : ℕ → Channel
  pub allocated : ℕ
  pub channels : List ℕ
  pub stopping : Bool
  pub failed : Bool
  pub last_error : Option RouterError

abbrev pub new_channel : EntityId → RoutedEndpointKind → Channel
new_channel entity_id kind = record {
  entity_id = entity_id;
  kind = kind;
  datagrams = [];
  active = true;
  error = none;
}

unfoldable pub new_router : Router
new_router = record {
  heap = λ p. new_channel entity_id_default reader;
  allocated = 0;
  channels = [];
  stopping = false;
  failed = false;
  last_error = none;
}

-- The constructor: a router whose transport is not open has failed.
unfoldable pub open_router : (transport_is_open : Bool) → Router
open_router transport_is_open =
    if transport_is_open
    then new_router
    else record new_router { failed = true; last_error = some transport_not_open }

-- A write through a pointer.
unfoldable pub put : ℕ → Channel → (ℕ → Channel) → ℕ → Channel
put p channel heap q = if q == p then channel else heap q

abbrev pub update : ℕ → (Channel → Channel) → Router → Router
update p change r = record r { heap = put p (change (r.heap p)) r.heap }

unfoldable pub update_all : List ℕ → (Channel → Channel) → Router → Router
update_all [] change r = r
update_all (p ∷ ps) change r = update_all ps change (update p change r)

-- `current->active && current->kind == kind && current->entity_id == entity_id`
unfoldable pub is_duplicate : EntityId → RoutedEndpointKind → Channel → Bool
is_duplicate entity_id kind channel =
    channel.active && kind_eq channel.kind kind && entity_id_eq channel.entity_id entity_id

unfoldable pub refuse : RouterError → Router → Option ℕ × Router
refuse e r = (none, record r { last_error = some e })

unfoldable pub add_channel : EntityId → RoutedEndpointKind → Router → Option ℕ × Router
add_channel entity_id kind r =
    if r.stopping || r.failed
    then refuse not_running r
    else if any_of (λ p. is_duplicate entity_id kind (r.heap p)) r.channels
    then refuse already_registered r
    else (
      some r.allocated,
      record r {
        heap = put r.allocated (new_channel entity_id kind) r.heap;
        allocated = r.allocated + 1;
        channels = r.channels ++ r.allocated ∷ [];
      },
    )

-- `remove_channel` takes two locks, one after the other.
unfoldable pub deactivate : ℕ → Router → Router
deactivate p r = update p (λ channel. record channel { active = false; datagrams = [] }) r

unfoldable pub unregister : ℕ → Router → Router
unregister p r = record r { channels = remove_if (λ q. q == p) r.channels }

unfoldable pub remove_channel : ℕ → Router → Router
remove_channel p r = unregister p (deactivate p r)

-- `stop`, after the receiver has ended: the router forgets the channels and closes them.
unfoldable pub stop : Router → Router
stop r =
    update_all r.channels (λ channel. record channel { active = false })
      (record r { stopping = true; channels = [] })

unfoldable pub fail : RouterError → Router → Router
fail e r =
    update_all r.channels (λ channel. record channel { error = some e })
      (record r { failed = true; last_error = some e })

unfoldable pub endpoint_count : Router → ℕ
endpoint_count r = length r.channels
