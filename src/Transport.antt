-- ===== src/Transport.antt =====
-- transport/Endpoint.h and ITransport.h. A text is the list of its bytes.
pub mod Recorder
use mini_dds.Prelude.{ℕ, List, ◌≡◌, ◌↔◌, arith, Bool, true, ◌&&◌, ◌==◌, bytes_eq, bytes_eq_iff}

abbrev pub Text : Type 0
Text = List ℕ

pub record Endpoint : Type 0 where
  pub address : Text
  pub port : ℕ

unfoldable pub endpoint_eq : Endpoint → Endpoint → Bool
endpoint_eq lhs rhs = bytes_eq lhs.address rhs.address && lhs.port == rhs.port

pub endpoint_eq_iff : (a b : Endpoint) → (endpoint_eq a b ≡ true) ↔ (a ≡ b)
unfolding endpoint_eq
endpoint_eq_iff a b = ground (arith, bytes_eq_iff a.address b.address)

pub record Datagram : Type 0 where
  pub payload : List ℕ
  pub source : Endpoint

-- A ReceiveResult: its status, with the datagram or the error text that goes with it.
pub data ReceiveResult : Type 0 where
  received : Datagram → ReceiveResult
  timed_out : ReceiveResult
  failed : Text → ReceiveResult

-- ITransport: a transport is a state with its operations. The endpoints take it as a parameter; the
-- timeout of `receive` is in milliseconds.
pub record Transport (S : Type 0) : Type 0 where
  pub send : List ℕ → Endpoint → S → Bool × S
  pub receive : ℕ → S → ReceiveResult × S
  pub last_error : S → Text
