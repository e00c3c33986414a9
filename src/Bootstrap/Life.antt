-- ===== src/Bootstrap/Life.antt =====
-- A bootstrap server from its start to the signal that ends it, cmd/k-bootstrap/main.go: it handles
-- requests, and the tickers of its background workers go off, one event after the other. The stop
-- of the workers and of the HTTP server changes no data.
use kairos_p2p_engine.Base.{ℕ, Option, List, [], ◌∷◌, Bytes}
use kairos_p2p_engine.Cleanup.{Clock, clean_bootstrap_database, clean_inactive_nodes}
use kairos_p2p_engine.Process.{Process, Response, Method}
use kairos_p2p_engine.Process.Json.{Json}
use kairos_p2p_engine.Sync.{perform_sync}
use kairos_p2p_engine.Bootstrap.{bootstrap_routes}

pub data Event : Type 0 where
  -- A request at a time.
  request : (now : ℕ) (method : Method) (path body : Bytes) → Event
  -- A tick of `ServerBootstrapSync`, with the peer that is drawn, and what peers answer at a path.
  sync_tick : (draw : ℕ) (answers : Bytes → Bytes → Bytes → Option Response) → Event
  -- A tick of `CleanBootstrapDatabase`.
  clean_tick : (clock : Clock) (gc_fuel : ℕ) → Event
  -- A tick of `CleanInactiveNodes`.
  monitor_tick : (clock : Clock) → Event

module _ {D F : Type 0} (self : Process D F) (json : Json) (sha256 : Bytes → Bytes)
    (metrics : D → Method → Response) where
  unfoldable pub handle : D → Event → D
  handle db (request now method path body) =
      (bootstrap_routes self json sha256 metrics now db [] method path body).0
  handle db (sync_tick draw answers) =
      (perform_sync self json (λ (w : Unit {0}) s p t. (w, answers s p t)) draw db tt).0
  handle db (clean_tick clock gc_fuel) = clean_bootstrap_database self.badger json clock gc_fuel db
  handle db (monitor_tick clock) = clean_inactive_nodes self.badger json clock db

  unfoldable pub life : D → List Event → D
  life db [] = db
  life db (event ∷ events) = life (handle db event) events
