-- ===== src/Rtps/Router/Steps.antt =====
-- The router of rtps/ParticipantMessageRouter.cpp as its threads may interleave.
use mini_dds.Prelude.{ℕ, List, [], ◌∷◌, Bool, true, false, some}
use mini_dds.Transport.{Datagram}
use mini_dds.Rtps.Types.{EntityId}
use mini_dds.Rtps.Router.{
  Router, RoutedEndpointKind, RouterError, add_channel, deactivate, unregister, stop, fail, update,
  open_router,
}
use mini_dds.Rtps.Router.Target.{RouteTarget}
use mini_dds.Rtps.Router.Dispatch.{select, push}
use mini_dds.Rtps.Router.Endpoints.{receive}

-- The router, with the targets that the receiver has yet to serve.
pub record System : Type 0 where
  pub router : Router
  pub targets : List ℕ

abbrev pub at : Router → List ℕ → System
at router targets = record { router = router; targets = targets }

-- What a thread may do while it holds a lock. `stop` and `fail` take several locks one by one, with
-- their flags before them: besides the whole calls there are their parts, which may come in any
-- order and between those of other threads.
pub data Step : System → System → Type 0 where
  added :
      (r : Router) (ts : List ℕ) (entity_id : EntityId) (kind : RoutedEndpointKind)
      → Step (at r ts) (at (add_channel entity_id kind r).1 ts)
  deactivated : (r : Router) (ts : List ℕ) (p : ℕ) → Step (at r ts) (at (deactivate p r) ts)
  unregistered : (r : Router) (ts : List ℕ) (p : ℕ) → Step (at r ts) (at (unregister p r) ts)
  selected :
      (r : Router) (target : RouteTarget) → Step (at r []) (at r (select target r.heap r.channels))
  pushed :
      (r : Router) (p : ℕ) (ts : List ℕ) (datagram : Datagram)
      → Step (at r (p ∷ ts)) (at (update p (push datagram) r) ts)
  taken : (r : Router) (ts : List ℕ) (p : ℕ) → Step (at r ts) (at (receive p r).1 ts)
  failed : (r : Router) (ts : List ℕ) (e : RouterError) → Step (at r ts) (at (fail e r) ts)
  stopped : (r : Router) → Step (at r []) (at (stop r) [])
  stopping_set : (r : Router) (ts : List ℕ) → Step (at r ts) (at (record r { stopping = true }) ts)
  forgotten : (r : Router) (ts : List ℕ) → Step (at r ts) (at (record r { channels = [] }) ts)
  closed :
      (r : Router) (ts : List ℕ) (p : ℕ)
      → Step (at r ts) (at (update p (λ channel. record channel { active = false }) r) ts)
  failed_set : (r : Router) (ts : List ℕ) → Step (at r ts) (at (record r { failed = true }) ts)
  noted :
      (r : Router) (ts : List ℕ) (e : RouterError)
      → Step (at r ts) (at (record r { last_error = some e }) ts)
  told :
      (r : Router) (ts : List ℕ) (p : ℕ) (e : RouterError)
      → Step (at r ts) (at (update p (λ channel. record channel { error = some e }) r) ts)

pub data Reach (s : System) : System → Type 0 where
  here : Reach s s
  next : {u v : System} → Reach s u → Step u v → Reach s v

abbrev pub start : Bool → System
start transport_is_open = at (open_router transport_is_open) []
