-- ===== src/Rtps/Writer/Deliver.antt =====
-- `deliver_change` of ReliableWriter in rtps/ReliableEndpoint.cpp.
pub mod Budget
pub mod Spend
pub mod Ends
pub mod Evidence
pub mod Readers
pub mod Receipt
use mini_dds.Prelude.{ℕ, zero, suc, List, map, Bool, if◌then◌else◌, Option, none, some}
use mini_dds.Rtps.Stateless.{ReaderProxy}
use mini_dds.History.{CacheChange}
use mini_dds.Rtps.Writer.{ReliableWriter, WriterError, Surroundings}
use mini_dds.Rtps.Writer.Round.{
  ReaderWriteState, new_state, all_acknowledged, Pass, for_each, send_to, deliver_round,
}

-- How a delivery ends; `unfinished` is that the rounds ran out.
pub data Delivery : Type 0 where
  delivered unfinished : Delivery
  undelivered : WriterError → Delivery

module _ {S : Type 0} (env : Surroundings S) (change : CacheChange) where
  -- `while (!all_acknowledged())`
  unfoldable pub deliver_loop :
      (rounds : ℕ) → Pass S → Delivery × List ReaderWriteState × ReliableWriter × S
  deliver_loop rounds (some e, states, writer, t) = (undelivered e, states, writer, t)
  deliver_loop zero (none, states, writer, t) =
      (if all_acknowledged states then delivered else unfinished, states, writer, t)
  deliver_loop (suc rounds) (none, states, writer, t) =
      let rest = deliver_loop rounds (deliver_round env change states writer t) in
      if all_acknowledged states then (delivered, states, writer, t) else rest

  -- The first transmission to every reader, at one reading of the clock.
  unfoldable pub first_pass : List ReaderProxy → ReliableWriter → S → Pass S
  first_pass readers writer t =
      let (now, t') = env.now t in
      for_each env change (send_to env change now) (map new_state readers) writer t'

  unfoldable pub deliver_change :
      (rounds : ℕ)
      → List ReaderProxy
      → ReliableWriter
      → S
      → Delivery × List ReaderWriteState × ReliableWriter × S
  deliver_change rounds readers writer t = deliver_loop rounds (first_pass readers writer t)
