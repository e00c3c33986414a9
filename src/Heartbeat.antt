-- ===== src/Heartbeat.antt =====
-- The subscription loop of cmd/k-node/main.go, at work with a bootstrap server and the heartbeat
-- monitor of internal/service/clean_database.go. A call takes no time in the model.
use kairos_p2p_engine.Base.{
  Result, ℕ, ◌+◌, ◌*◌, ◌<◌, ◌≤◌, ◌≡◌, refl, ap, ◌∙◌, true, false, Option, none, some, List, [], ◌∷◌,
  Bytes, nat_eq, length, ltb, int64_sign, is_some, arith,
}
use kairos_p2p_engine.Models.{SubscriptionRequest, ActiveNodeRecord}
use kairos_p2p_engine.Badger.{BadgerLaws, IsReliable}
use kairos_p2p_engine.Config.{self_address}
use kairos_p2p_engine.Database.Laws.{stored}
use kairos_p2p_engine.Process.{Process, Response, Method, Trusts, sign_or_nil, post_of, ok_response}
use kairos_p2p_engine.Process.Json.{Json}
use kairos_p2p_engine.Sync.{active_nodes}
use kairos_p2p_engine.Sync.Align.{active_nodes-IsPlain}
use kairos_p2p_engine.Cleanup.{
  Clock, second, heartbeat_timeout, is_unresponsive, clean_inactive_nodes,
}
use kairos_p2p_engine.Cleanup.Sweep.{stored-clean_inactive_nodes, is_unresponsive_lem}
use kairos_p2p_engine.Bootstrap.{subscribe_node, bootstrap_routes}
use kairos_p2p_engine.Bootstrap.Registry.{signed_subscription, subscribed}
use kairos_p2p_engine.Client.{ClientError, subscribe, answer, error_of}
use kairos_p2p_engine.Client.Served.{served, send_signed_lem}

-- How long the loop sleeps after a subscription.
abbrev pub pause : Option ClientError → ℕ
pause none = 60 * second
pause (some e) = 5 * second

-- The server's database, and when the loop goes on.
pub record Beating (D : Type 0) : Type 0 where
  pub db : D
  pub next : ℕ

-- The loop subscribes, with the generator's value for the choice of the server, or the server's
-- monitor ticks.
pub data Beat : Type 0 where
  heartbeat : ℕ → Beat
  tick : Clock → Beat

module _ {D E F G : Type 0} (server : Process D F) (node : Process E G) (json : Json)
    (sha256 : Bytes → Bytes) (metrics : D → Method → Response) where
  unfoldable pub beat_once : Beating D → Beat → Beating D
  beat_once s (heartbeat draw) =
      let (db, e) =
        subscribe node json
          (post_of (served server json sha256 metrics s.next (λ (d : D). d) (λ d d'. d'))) draw
          s.db in
      record { db = db; next = s.next + pause e }
  beat_once s (tick clock) = record {
    db = clean_inactive_nodes server.badger json clock s.db;
    next = s.next;
  }

  abbrev pub beats : Beating D → List Beat → Beating D
  beats s [] = s
  beats s (b ∷ rest) = beats (beat_once s b) rest

  -- No tick of the monitor is later than the next subscription, and no time overflows.
  abbrev pub IsOnTime : Beating D → List Beat → Type 0
  IsOnTime s [] = Unit {0}
  IsOnTime s (heartbeat draw ∷ rest) =
      (s.next < int64_sign) × IsOnTime (beat_once s (heartbeat draw)) rest
  IsOnTime s (tick clock ∷ rest) =
      (clock.unix_nano ≤ s.next) × (s.next < int64_sign) × IsOnTime (beat_once s (tick clock)) rest

  module _ {laws : BadgerLaws server.badger} (reliable : IsReliable laws)
      (trusted : Trusts server node)
      (configured : nat_eq (length node.config.bootstrap_servers) 0 ≡ false) where
    abbrev address : Bytes
    address = self_address node.config

    abbrev entry : ℕ → ActiveNodeRecord
    entry time = record { public_key = node.config.public_key; timestamp = time }

    -- The registry has the node's last subscription, which is not more than a minute old when the
    -- loop goes on.
    abbrev IsAlive : Beating D → Type 0
    IsAlive s =
        (time : ℕ) × (stored laws s.db active_nodes address
          ≡ some (json.active_node_record.marshal (entry time)))
        × (s.next ≤ time + 60 * second)
        × (time < int64_sign)

    welcomed :
        (now : ℕ) (db : D)
        → (subscribe_node server json now db (signed_subscription node json address)).1
          ≡ ok_response []
    unfolding subscribe_node
    welcomed now db =
        let unsigned : SubscriptionRequest = record {
          address = address;
          public_key = node.config.public_key;
          signature = [];
        } in
        let text = json.subscription_request.marshal unsigned in
        rw
          (json.subscription_request.decode-marshal
            (record unsigned { signature = sign_or_nil node text }))
          (rw (trusted.accepts text) refl)

    subscribe_lem :
        (now draw : ℕ) (db : D)
        → subscribe node json
            (post_of (served server json sha256 metrics now (λ (d : D). d) (λ d d'. d')))
            draw
            db
          ≡ ((subscribe_node server json now db (signed_subscription node json address)).0, none)
    unfolding subscribe bootstrap_routes answer
    subscribe_lem now draw db =
        let unsigned : SubscriptionRequest = record {
          address = address;
          public_key = node.config.public_key;
          signature = [];
        } in
        rw (configured, subscribe)
          (ap (λ (r : D × Result ClientError Bytes). (r.0, error_of r.1))
              (send_signed_lem server node json sha256 metrics now (λ (d : D). d) (λ d d'. d')
                reliable trusted configured draw db (json.subscription_request.marshal unsigned) _
                _)
            ∙ rw (welcomed now db) refl)

    heartbeat-IsAlive :
        (s : Beating D) (draw : ℕ) → s.next < int64_sign → IsAlive (beat_once s (heartbeat draw))
    unfolding beat_once
    heartbeat-IsAlive s draw h =
        let same = subscribe_lem s.next draw s.db in
        (
          s.next,
          ap (λ t. stored laws t.0 active_nodes address) same
              ∙ subscribed server node json reliable trusted s.next s.db address,
          rw (ap (λ t. t.1) same) (omega arith),
          h,
        )

    tick-IsAlive :
        (s : Beating D) (clock : Clock)
        → clock.unix_nano ≤ s.next
        → s.next < int64_sign
        → IsAlive s
        → IsAlive (beat_once s (tick clock))
    unfolding beat_once
    tick-IsAlive s clock h h' (time, e, near, small) =
        let value = json.active_node_record.marshal (entry time) in
        let decoded = json.active_node_record.decode-marshal (entry time) in
        let awake : is_unresponsive json clock value ≡ false =
          is_unresponsive_lem json clock value (omega arith) (rw decoded small)
            (ap (λ r. r.1) decoded)
          ∙ ap (λ r. ltb (r.0.timestamp + heartbeat_timeout) clock.unix_nano) decoded
          ∙ ground arith in
        (
          time,
          stored-clean_inactive_nodes laws reliable json clock s.db active_nodes address
                active_nodes-IsPlain
              ∙ rw e (rw awake (ground arith)),
          near,
          small,
        )

    beats-IsAlive :
        (s : Beating D) (rest : List Beat) → IsAlive s → IsOnTime s rest → IsAlive (beats s rest)
    beats-IsAlive s [] alive on_time = alive
    beats-IsAlive s (heartbeat draw ∷ rest) alive on_time =
        beats-IsAlive (beat_once s (heartbeat draw)) rest (heartbeat-IsAlive s draw on_time.0)
          on_time.1
    beats-IsAlive s (tick clock ∷ rest) alive on_time =
        beats-IsAlive (beat_once s (tick clock)) rest
          (tick-IsAlive s clock on_time.0 on_time.1 alive) on_time.2

    -- A node with a server configured, whose loop subscribes and goes on by itself, is in the registry
    -- after every sequence of further subscriptions and ticks of the heartbeat monitor, provided that
    -- the server accepts its signatures, that the store does not fail, that no tick is later than the
    -- subscription that is due, and that the times stay below 2 ^ 63.
    pub heartbeats_last :
        (s : Beating D) (draw : ℕ) (rest : List Beat)
        → IsOnTime s (heartbeat draw ∷ rest)
        → is_some (
            stored laws
              (beats s (heartbeat draw ∷ rest)).db
              active_nodes
              (self_address node.config))
          ≡ true
    heartbeats_last s draw rest on_time =
        let (time, e, near, small) =
          beats-IsAlive (beat_once s (heartbeat draw)) rest (heartbeat-IsAlive s draw on_time.0)
            on_time.1 in
        rw e refl
