-- ===== src/Rtps/Router/Dispatch.antt =====
-- `receive_loop` of rtps/ParticipantMessageRouter.cpp.
use mini_dds.Prelude.{
  ℕ, List, [], ◌∷◌, ◌++◌, Bool, true, false, ◌&&◌, ◌||◌, if◌then◌else◌, Option, none, some,
}
use mini_dds.Transport.{Text, Datagram, ReceiveResult, received, timed_out, failed}
use mini_dds.Rtps.Types.{entity_id_eq}
use mini_dds.Rtps.Outcome.{is_unknown_entity}
use mini_dds.Rtps.Router.{
  Router, Channel, RouterError, receive_failed, transport, kind_eq, update, fail,
}
use mini_dds.Rtps.Router.Target.{RouteTarget, route_target}

unfoldable pub is_targeted : RouteTarget → Channel → Bool
is_targeted target channel =
    kind_eq channel.kind target.kind
    && (is_unknown_entity target.entity_id || entity_id_eq channel.entity_id target.entity_id)

-- The channels that a datagram is for, collected under the router's lock.
unfoldable pub select : RouteTarget → (ℕ → Channel) → List ℕ → List ℕ
select target heap [] = []
select target heap (p ∷ ps) =
    if is_targeted target (heap p) then p ∷ select target heap ps else select target heap ps

-- One of them takes the datagram, under its own lock, unless it has been closed meanwhile.
unfoldable pub push : Datagram → Channel → Channel
push datagram channel =
    if channel.active
    then record channel { datagrams = channel.datagrams ++ datagram ∷ [] }
    else channel

unfoldable pub push_all : Datagram → List ℕ → Router → Router
push_all datagram [] r = r
push_all datagram (p ∷ ps) r = push_all datagram ps (update p (push datagram) r)

abbrev dispatch_to : Option RouteTarget → Datagram → Router → Router
dispatch_to none datagram r = r
dispatch_to (some target) datagram r = push_all datagram (select target r.heap r.channels) r

unfoldable pub dispatch : Datagram → Router → Router
dispatch datagram r = dispatch_to (route_target datagram.payload) datagram r

-- An empty error text is replaced.
abbrev receive_error : Text → RouterError
receive_error [] = receive_failed
receive_error (c ∷ cs) = transport (c ∷ cs)

-- A round of the loop, after `stopping` has been tested; whether the loop goes on.
unfoldable pub receive_step : ReceiveResult → Router → Bool × Router
receive_step timed_out r = (true, r)
receive_step (failed e) r = (false, if r.stopping then r else fail (receive_error e) r)
receive_step (received datagram) r = (true, dispatch datagram r)
