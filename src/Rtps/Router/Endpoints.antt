-- ===== src/Rtps/Router/Endpoints.antt =====
-- RoutedTransport of rtps/ParticipantMessageRouter.cpp: the endpoint that a channel gives.
use mini_dds.Prelude.{
  ℕ, List, [], ◌∷◌, Bool, true, false, not, ◌&&◌, ◌||◌, if◌then◌else◌, Option, none, some,
}
use mini_dds.Transport.{Datagram, Endpoint, Transport}
use mini_dds.Rtps.Router.{
  Router, Channel, RouterError, not_running, transport_not_open, transport, endpoint_closed, update,
}

-- A ReceiveResult, whose error is one of the router's.
pub data RoutedResult : Type 0 where
  datagram : Datagram → RoutedResult
  timeout : RoutedResult
  error : RouterError → RoutedResult

-- What `receive` finds when its wait is over: a datagram before an error, an error before the end.
abbrev pub closed_or-timeout : Bool → RoutedResult
closed_or-timeout true = timeout
closed_or-timeout false = error endpoint_closed

abbrev pub error_or-closed : Option RouterError → Bool → RoutedResult
error_or-closed (some e) active = error e
error_or-closed none active = closed_or-timeout active

abbrev pub from_datagrams : List Datagram → Channel → RoutedResult × Channel
from_datagrams [] channel = (error_or-closed channel.error channel.active, channel)
from_datagrams (d ∷ ds) channel = (datagram d, record channel { datagrams = ds })

unfoldable pub receive_channel : Channel → RoutedResult × Channel
receive_channel channel = from_datagrams channel.datagrams channel

unfoldable pub receive : ℕ → Router → RoutedResult × Router
receive p r =
    let (result, channel) = receive_channel (r.heap p) in (result, update p (λ old. channel) r)

-- `send` of the router: `none` is success. Whether the transport is open is asked of it.
unfoldable pub send :
    {S : Type 0}
    → Transport S
    → (S → Bool)
    → List ℕ
    → Endpoint
    → Router
    → S
    → Option RouterError × S
send net is_open bytes destination r t =
    let (done, t') = net.send bytes destination t in
    if r.stopping || r.failed
    then (some not_running, t)
    else if not (is_open t)
    then (some transport_not_open, t)
    else if not done
    then (some (transport (net.last_error t')), t')
    else (none, t')

unfoldable pub is_open : {S : Type 0} → (S → Bool) → Router → S → Bool
is_open transport_is_open r t = transport_is_open t && not r.stopping && not r.failed

-- `is_open` of an endpoint.
unfoldable pub endpoint_is_open : {S : Type 0} → (S → Bool) → ℕ → Router → S → Bool
endpoint_is_open transport_is_open p r t = (r.heap p).active && is_open transport_is_open r t
