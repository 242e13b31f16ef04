-- ===== src/Network/Node.antt =====
-- `PyroNetwork` (bridge_node/bridge/common/p2p/network.py): a node's peers, callbacks and listeners.
-- The connection that `BoundPyroProxy` makes is Pyro's, and what a call through it answers is `Peers`.
use nbte_bridge.Prelude.{
  String, concat, Bool, true, false, not, Option, none, some, List, [], ◌∷◌, ◌++◌, map, keep, ◌==◌,
  string_eq, is_some,
}
use nbte_bridge.Result.{Result, ok, err, value_error, runtime, communication, raise_if, ◌>>=◌, ◌>>◌}
use nbte_bridge.KeyValues.{find_value}
use nbte_bridge.Decimals.{Decimal}
use nbte_bridge.Network.Values.{
  Value, none_value, Fields, no_fields, field, serialize, serialize_fields, deserialize,
}

abbrev pub Callback : Type 0
Callback = Fields → Result Value

-- A message with its sender's address.
pub record MessageEnvelope : Type 0 where
  pub sender : String
  pub message : Value

abbrev pub Listener : Type 0
Listener = MessageEnvelope → Result (Unit {0})

pub record PyroNetwork : Type 0 where
  pub node_id : String
  pub leader_node_id : String
  pub uri : String
  pub peers : List (String × String)
  pub answer_callbacks : List (String × Callback)
  pub listeners : List Listener
  pub running : Bool

-- The calls through the proxy of an address.
pub record Peers : Type 0 where
  pub answer : String → String → Fields → Result Value
  pub receive : String → MessageEnvelope → Result (Unit {0})

abbrev pub get_peer_uri : String → String → String
get_peer_uri peer_id peer_host = concat "PYRO:" (concat peer_id (concat "@" peer_host))

unfoldable pub get_peers : PyroNetwork → List String
get_peers network =
    map (λ (p : String × String). get_peer_uri p.0 p.1)
      (keep (λ (p : String × String). not (p.0 == network.node_id)) network.peers)

unfoldable pub is_leader : PyroNetwork → Bool
is_leader network = network.node_id == network.leader_node_id

-- `answer_with`
unfoldable pub answer_with : String → Callback → PyroNetwork → Result PyroNetwork
answer_with question callback network = do
  raise_if (is_some (find_value question network.answer_callbacks)) value_error
  ok (record network { answer_callbacks = network.answer_callbacks ++ (question, callback) ∷ [] })

abbrev pub add_listener : Listener → PyroNetwork → PyroNetwork
add_listener listener network = record network { listeners = network.listeners ++ listener ∷ [] }

-- `receive`
abbrev pub call_listeners : List Listener → MessageEnvelope → Result (Unit {0})
call_listeners [] envelope = ok tt
call_listeners (l ∷ ls) envelope = do l envelope; call_listeners ls envelope

unfoldable pub receive : PyroNetwork → MessageEnvelope → Result (Unit {0})
receive network envelope = call_listeners network.listeners envelope

-- A call of a peer whose `CommunicationError` is logged.
abbrev pub or_skip : Result (Unit {0}) → Result (Unit {0})
or_skip (err communication) = ok tt
or_skip r = r

abbrev pub broadcast_to : Peers → MessageEnvelope → List String → Result (Unit {0})
broadcast_to peers envelope [] = ok tt
broadcast_to peers envelope (uri ∷ uris) = do
  or_skip (peers.receive uri envelope)
  broadcast_to peers envelope uris

unfoldable pub broadcast : Peers → PyroNetwork → Value → Result (Unit {0})
broadcast peers network msg =
    broadcast_to peers (record { sender = network.uri; message = msg }) (get_peers network)

abbrev pub send : Peers → PyroNetwork → String → Value → Result (Unit {0})
send peers network to msg = peers.receive to (record { sender = network.uri; message = msg })

-- `start` and `stop`, without the thread of the daemon.
abbrev pub start : PyroNetwork → Result PyroNetwork
start network = do raise_if network.running runtime; ok (record network { running = true })

abbrev pub stop : PyroNetwork → PyroNetwork
stop network = record network { running = false }

module _ (decimal_text : Decimal → String) (decimal_of : Value → Result Decimal) where
  -- `{key: self.deserialize(value) ...}` of the arguments of a question.
  abbrev pub deserialize_kwargs : Fields → Result Fields
  deserialize_kwargs no_fields = ok no_fields
  deserialize_kwargs (field k v fs) = do
    d ← deserialize decimal_text decimal_of v
    rest ← deserialize_kwargs fs
    ok (field k d rest)

  abbrev pub serialize_kwargs : Fields → Fields
  serialize_kwargs fs = serialize_fields decimal_text decimal_of fs

  -- The body of the `try` of `answer`: an exception of the callback becomes None.
  abbrev pub answer_of : Result Value → Value
  answer_of (ok v) = serialize decimal_text decimal_of v
  answer_of (err e) = none_value

  abbrev pub call_back : Option Callback → Fields → Result Value
  call_back none kwargs = ok none_value
  call_back (some callback) kwargs = ok (answer_of (callback kwargs))

  -- `answer`
  unfoldable pub answer : PyroNetwork → String → Fields → Result Value
  answer network question kwargs = do
    deserialized ← deserialize_kwargs kwargs
    call_back (find_value question network.answer_callbacks) deserialized

  -- A `CommunicationError` of `deserialize` is logged too.
  abbrev pub kept_value : Result Value → Result (List Value)
  kept_value (ok d) = ok (d ∷ [])
  kept_value (err communication) = ok []
  kept_value (err e) = err e

  -- What `ask` adds for the answer of a peer.
  abbrev pub kept : Result Value → Result (List Value)
  kept (ok none_value) = ok []
  kept (err communication) = ok []
  kept (err e) = err e
  kept (ok v) = kept_value (deserialize decimal_text decimal_of v)

  abbrev pub ask_peers : Peers → String → Fields → List String → Result (List Value)
  ask_peers peers question kwargs [] = ok []
  ask_peers peers question kwargs (uri ∷ uris) = do
    mine ← kept (peers.answer uri question kwargs)
    rest ← ask_peers peers question kwargs uris
    ok (mine ++ rest)

  -- `ask`
  unfoldable pub ask : Peers → PyroNetwork → String → Fields → Result (List Value)
  ask peers network question kwargs =
      ask_peers peers question (serialize_kwargs kwargs) (get_peers network)
