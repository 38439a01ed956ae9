-- ===== src/Transport/Recorder.antt =====
-- A transport that keeps what arrives: the ghost history that theorems on the endpoints speak of.
use mini_dds.Prelude.{List, ◌∷◌}
use mini_dds.Transport.{Datagram, ReceiveResult, received, timed_out, failed, Transport}

pub record Recorded (S : Type 0) : Type 0 where
  pub state : S
  pub log : List Datagram

-- The newest datagram comes first.
abbrev pub noted : {S : Type 0} → List Datagram → ReceiveResult × S → ReceiveResult × Recorded S
noted log (received datagram, t) = (received datagram, record { state = t; log = datagram ∷ log })
noted log (timed_out, t) = (timed_out, record { state = t; log = log })
noted log (failed e, t) = (failed e, record { state = t; log = log })

-- A result, with the log as it was.
abbrev pub recorded : {A S : Type 0} → List Datagram → A × S → A × Recorded S
recorded log (a, t) = (a, record { state = t; log = log })

abbrev pub recorder : {S : Type 0} → Transport S → Transport (Recorded S)
recorder net = record {
  send = λ bytes endpoint t. recorded t.log (net.send bytes endpoint t.state);
  receive = λ timeout t. noted t.log (net.receive timeout t.state);
  last_error = λ t. net.last_error t.state;
}
