-- ===== src/Bootstrap/Registry.antt =====
-- The registry of active nodes.
use Prim.Native.Nat.{min}
use native.Mathlib.Nat.{lt-div-mul-add, div-mul-le_self}
use kairos_p2p_engine.Base.{
  ℕ, ◌+◌, ◌*◌, ◌-◌, ◌/◌, ◌<◌, ◌≤◌, ◌≡◌, refl, ap, ◌∙◌, ◌&&◌, none, some, List, [], ◌∷◌, ◌++◌, Bytes,
  ◌==◌, eq_refl, length, length-take, take, drop, take-append-drop, ltb, leb, int64_sign, is_some,
  arith, if◌then◌else◌,
}
use kairos_p2p_engine.Models.{SubscriptionRequest, ActiveNodeRecord}
use kairos_p2p_engine.Badger.{BadgerLaws, IsReliable}
use kairos_p2p_engine.Database.Laws.{stored, stored-put, put_data_ok}
use kairos_p2p_engine.Process.{Process, sign_or_nil, Trusts}
use kairos_p2p_engine.Process.Json.{Json}
use kairos_p2p_engine.Sync.{active_nodes}
use kairos_p2p_engine.Sync.Align.{active_nodes-IsPlain}
use kairos_p2p_engine.Cleanup.{Clock, heartbeat_timeout, is_unresponsive, clean_inactive_nodes}
use kairos_p2p_engine.Cleanup.Sweep.{stored-clean_inactive_nodes, is_unresponsive_lem}
use kairos_p2p_engine.Bootstrap.{inexact_from, subscribe_node, nodes_to_pickup, allocate}

-- The node's request as service.SubscribeNode builds it: the signature is over the text without it.
abbrev pub signed_subscription : {E G : Type 0} → Process E G → Json → Bytes → Bytes
signed_subscription node json address =
    let unsigned : SubscriptionRequest = record {
      address = address;
      public_key = node.config.public_key;
      signature = [];
    } in
    json.subscription_request.marshal (record unsigned {
      signature = sign_or_nil node (json.subscription_request.marshal unsigned);
    })

kept :
    (now later : ℕ) (value : Bytes)
    → is_some (
        if (active_nodes == active_nodes) && ltb (now + heartbeat_timeout) later
        then none
        else some value)
      ≡ leb later (now + heartbeat_timeout)
kept now later value = ground (arith, eq_refl active_nodes)

module _ {D E F G : Type 0} (server : Process D F) (node : Process E G) (json : Json)
    {laws : BadgerLaws server.badger} (reliable : IsReliable laws)
    (trusted : Trusts server node) where
  pub subscribed :
      (now : ℕ) (db : D) (address : Bytes)
      → stored laws
          (subscribe_node server json now db (signed_subscription node json address)).0
          active_nodes
          address
        ≡ some (
            json.active_node_record.marshal
              (record { public_key = node.config.public_key; timestamp = now }))
  unfolding subscribe_node
  subscribed now db address =
      let unsigned : SubscriptionRequest = record {
        address = address;
        public_key = node.config.public_key;
        signature = [];
      } in
      let text = json.subscription_request.marshal unsigned in
      rw
        (json.subscription_request.decode-marshal
          (record unsigned { signature = sign_or_nil node text }))
        (rw (trusted.accepts text) (
          ground (
            arith,
            stored-put laws db active_nodes active_nodes address address
                (json.active_node_record.marshal
                  (record { public_key = node.config.public_key; timestamp = now }))
                active_nodes-IsPlain active_nodes-IsPlain,
            put_data_ok laws reliable db active_nodes address (
                json.active_node_record.marshal
                  (record { public_key = node.config.public_key; timestamp = now })),
            eq_refl address,
          )))

  -- On a store that does not fail, with a node whose signatures the server accepts: a node that
  -- subscribes at `now` is in the registry after a tick of the heartbeat monitor exactly if that
  -- tick comes no more than two minutes later; both readings of the clock are below 2 ^ 63.
  pub subscription_lasts :
      (clock : Clock) (now : ℕ) (db : D) (address : Bytes)
      → now < int64_sign
      → clock.unix_nano < int64_sign
      → is_some (
          stored laws
            (clean_inactive_nodes server.badger json clock
              (subscribe_node server json now db (signed_subscription node json address)).0)
            active_nodes
            address)
        ≡ leb clock.unix_nano (now + heartbeat_timeout)
  subscription_lasts clock now db address hn hc =
      let entry : ActiveNodeRecord = record {
        public_key = node.config.public_key;
        timestamp = now;
      } in
      let value = json.active_node_record.marshal entry in
      let after = (subscribe_node server json now db (signed_subscription node json address)).0 in
      let decoded = json.active_node_record.decode-marshal entry in
      let silent : is_unresponsive json clock value
          ≡ ltb (now + heartbeat_timeout) clock.unix_nano =
        is_unresponsive_lem json clock value hc (rw decoded hn) (ap (λ r. r.1) decoded)
        ∙ ap (λ r. ltb (r.0.timestamp + heartbeat_timeout) clock.unix_nano) decoded in
      rw
        (stored-clean_inactive_nodes laws reliable json clock after active_nodes address
          active_nodes-IsPlain)
        (rw (subscribed now db address) (rw silent (kept now clock.unix_nano value)))

append_nil : (xs : List Bytes) → xs ++ [] ≡ xs
append_nil [] = refl
append_nil (x ∷ xs) = ap (λ t. x ∷ t) (append_nil xs)

split_nodes :
    (nodes : List Bytes) (count : ℕ)
    → (if leb (length nodes) count then nodes else take count nodes)
        ++ (if leb (length nodes) count then [] else drop count nodes)
      ≡ nodes
split_nodes nodes count = ground (arith, append_nil nodes, take-append-drop count nodes)

-- For a number of chunks and a positive number of nodes per chunk, both below 2 ^ 53: the number of
-- nodes to hand out is the number of chunks over that of nodes per chunk, rounded up, and that many
-- nodes are handed out from the front of the list, or all if there are fewer.
pub allocate-nodes_to_pickup :
    (nodes : List Bytes) (total_chunks nodes_per_chunk : ℕ)
    → total_chunks < inexact_from
    → 0 < nodes_per_chunk
    → nodes_per_chunk < inexact_from
    → (count : ℕ) × (left : List Bytes) × (nodes_to_pickup total_chunks nodes_per_chunk
        ≡ some count)
      × (allocate nodes count ++ left ≡ nodes)
      × (length (allocate nodes count) ≡ min count (length nodes))
      × (total_chunks ≤ count * nodes_per_chunk)
      × (count * nodes_per_chunk < total_chunks + nodes_per_chunk)
unfolding nodes_to_pickup allocate
allocate-nodes_to_pickup nodes total n few h small =
    let count = (total + n - 1) / n in
    let above : total + n - 1 < count * n + n = lt-div-mul-add h in
    (
      count,
      if leb (length nodes) count then [] else drop count nodes,
      ground arith,
      split_nodes nodes count,
      ground (arith, length-take count nodes),
      omega (arith, above),
      omega (arith, div-mul-le_self (total + n - 1) n),
    )
