-- ===== src/Network/Ask.antt =====
-- A question to the other nodes, from the call of `ask` to its result
-- (bridge_node/bridge/common/p2p/network.py).
use nbte_bridge.Prelude.{
  String, concat, All, keep, map, not, ◌==◌, string_eq, beq_refl, Bool-cases, ◌∙◌, ◌≡◌, refl,
  Option, none, some, List, [], ◌∷◌, ◌++◌, Option-cases, inl, inr, ap,
}
use nbte_bridge.Result.{Result, ok, err, Result-cases}
use nbte_bridge.KeyValues.{find_value}
use nbte_bridge.Decimals.{Decimal}
use nbte_bridge.Network.Values.{
  Value, none_value, boolean, number, text, decimal, sequence, dict, dataclass, namespace, Fields,
  no_fields, field, serialize, serialize_fields, deserialize, received, received_fields, IsSendable,
  AreSendable, IsPlain, HasPlainFields,
}
use nbte_bridge.Network.Values.Sent.{
  deserialize-serialize, serialize-IsPlain, serialize_fields-HasPlainFields,
}
use nbte_bridge.Network.Node.{
  Callback, PyroNetwork, Peers, get_peers, deserialize_kwargs, serialize_kwargs, answer, kept,
  kept_value, ask_peers, ask,
}

-- Another node of the configuration.
abbrev pub IsOther : String → String × String → Type 0
IsOther node_id (peer, host) = ¬ (peer ≡ node_id)

-- The address of a node of the configuration.
abbrev pub address : String × String → String
address (peer, host) = concat "PYRO:" (concat peer (concat "@" host))

keep-others :
    (node_id : String) (ps : List (String × String))
    → All (IsOther node_id) ps
    → keep (λ (p : String × String). not (p.0 == node_id)) ps ≡ ps
keep-others node_id [] h = refl
keep-others node_id ((peer, host) ∷ ps) h = elim (Bool-cases (peer == node_id)) [
  | inl same ↦ absurd (h.0 ((string_eq.same_iff peer node_id).0 same))
  | inr other ↦ simp (other, keep-others node_id ps h.1)
]

-- The other nodes, where the configuration lists this one between them.
keep-around :
    (node_id host : String) (before after : List (String × String))
    → All (IsOther node_id) before
    → All (IsOther node_id) after
    → keep (λ (p : String × String). not (p.0 == node_id)) (before ++ (node_id, host) ∷ after)
      ≡ before ++ after
keep-around node_id host [] after hb ha = simp (beq_refl node_id, keep-others node_id after ha)
keep-around node_id host ((peer, h) ∷ before) after hb ha = elim (Bool-cases (peer == node_id)) [
  | inl same ↦ absurd (hb.0 ((string_eq.same_iff peer node_id).0 same))
  | inr other ↦ simp (other, keep-around node_id host before after hb.1 ha)
]

-- What the node that asks gets from a callback.
abbrev pub shown : Value → List Value
shown none_value = []
shown v = received v ∷ []

abbrev pub shown_result : Result Value → List Value
shown_result (ok v) = shown v
shown_result (err e) = []

abbrev pub shown_answer : Option Callback → Fields → List Value
shown_answer none kwargs = []
shown_answer (some callback) kwargs = shown_result (callback kwargs)

-- The answers of the nodes at these addresses to a question, one after the other.
abbrev pub shown_answers : (String → PyroNetwork) → String → Fields → List String → List Value
shown_answers nodes question kwargs [] = []
shown_answers nodes question kwargs (uri ∷ uris) =
    shown_answer (find_value question (nodes uri).answer_callbacks) kwargs
    ++ shown_answers nodes question kwargs uris

module _ (decimal_text : Decimal → String) (decimal_of : Value → Result Decimal)
    (decimal_round_trip : (d : Decimal) → decimal_of (text (decimal_text d)) ≡ ok d) where
  kept_serialized :
      (v : Value)
      → IsSendable v
      → kept decimal_text decimal_of (ok (serialize decimal_text decimal_of v)) ≡ ok (shown v)
  unfolding serialize deserialize received
  kept_serialized v h =
      go v (deserialize-serialize decimal_text decimal_of decimal_round_trip v h).1
    where
      go :
          (v : Value)
          → deserialize decimal_text decimal_of (serialize decimal_text decimal_of v)
            ≡ ok (received v)
          → kept decimal_text decimal_of (ok (serialize decimal_text decimal_of v)) ≡ ok (shown v)
      go none_value e = refl
      go (boolean b) e = refl
      go (number n) e = refl
      go (text s) e = refl
      go (decimal d) e = ap (kept_value decimal_text decimal_of) e
      go (sequence vs) e = refl
      go (dict fs) e = ap (kept_value decimal_text decimal_of) e
      go (dataclass fs) e = ap (kept_value decimal_text decimal_of) e
      go (namespace fs) e = refl

  kwargs_arrive :
      (kwargs : Fields)
      → AreSendable kwargs
      → deserialize_kwargs decimal_text decimal_of (serialize_kwargs decimal_text decimal_of kwargs)
        ≡ ok (received_fields kwargs)
  unfolding serialize_fields AreSendable received_fields
  kwargs_arrive no_fields h = refl
  kwargs_arrive (field k v fs) h = simp (
    (deserialize-serialize decimal_text decimal_of decimal_round_trip v h.1).1,
    kwargs_arrive fs h.2,
  )

  module _ (peers : Peers) (nodes : String → PyroNetwork) (question : String) (kwargs : Fields)
      (carried : (uri : String) (fs : Fields) (v : Value)
        → HasPlainFields fs
        → answer decimal_text decimal_of (nodes uri) question fs ≡ ok v
        → IsPlain v
        → peers.answer uri question fs ≡ ok v)
      (sendable_kwargs : AreSendable kwargs)
      (sendable : (uri : String) (callback : Callback) (v : Value)
        → find_value question (nodes uri).answer_callbacks ≡ some callback
        → callback (received_fields kwargs) ≡ ok v
        → IsSendable v) where
    answered :
        (uri : String)
        → kept decimal_text decimal_of
            (peers.answer uri question (serialize_kwargs decimal_text decimal_of kwargs))
          ≡ ok (
              shown_answer
                (find_value question (nodes uri).answer_callbacks)
                (received_fields kwargs))
    unfolding answer IsPlain
    answered uri =
        let arrive = kwargs_arrive kwargs sendable_kwargs in
        let sent = serialize_kwargs decimal_text decimal_of kwargs in
        let plain =
          serialize_fields-HasPlainFields decimal_text decimal_of decimal_round_trip kwargs
            sendable_kwargs in
        elim (Option-cases (find_value question (nodes uri).answer_callbacks)) [
          | inl e ↦
              let got = carried uri sent none_value plain (simp (arrive, e)) tt in simp (got, e)
          | inr (c, e) ↦ elim (Result-cases (c (received_fields kwargs))) [
            | inl (v, r) ↦
                let can = sendable uri c v e r in
                let shape = serialize-IsPlain decimal_text decimal_of decimal_round_trip v can in
                let got =
                  carried uri sent (serialize decimal_text decimal_of v) plain (simp (arrive, e, r))
                    shape in
                simp (got, e, r, kept_serialized v can)
            | inr (x, r) ↦
                let got = carried uri sent none_value plain (simp (arrive, e, r)) tt in
                simp (got, e, r)
          ]
        ]

    asked :
        (uris : List String)
        → ask_peers decimal_text decimal_of peers question
            (serialize_kwargs decimal_text decimal_of kwargs)
            uris
          ≡ ok (shown_answers nodes question (received_fields kwargs) uris)
    asked [] = refl
    asked (uri ∷ uris) = simp (answered uri, asked uris)

    -- If a plain question reaches every other node and its plain answer comes back, the arguments
    -- and the answers are sendable, Python's Decimal of the text of a Decimal is that Decimal,
    -- and the configuration lists this node once, then `ask` returns the answers of the callbacks
    -- of exactly the nodes that it lists before and after this one, in that order, each called
    -- with the arguments that were passed; a node without a callback for the question, or whose
    -- callback raises or returns None, is left out.
    pub ask_lem :
        (network : PyroNetwork) (host : String) (before after : List (String × String))
        → network.peers ≡ before ++ (network.node_id, host) ∷ after
        → All (IsOther network.node_id) before
        → All (IsOther network.node_id) after
        → ask decimal_text decimal_of peers network question kwargs
          ≡ ok (
              shown_answers nodes question (received_fields kwargs) (map address (before ++ after)))
    unfolding ask get_peers
    ask_lem network host before after listed hb ha =
        let others = keep-around network.node_id host before after hb ha in
        let uris : get_peers network ≡ map address (before ++ after) =
          ap (λ ps. map address (keep (λ (p : String × String). not (p.0 == network.node_id)) ps))
            listed
          ∙ ap (map address) others in
        ap
          (λ us.
            ask_peers decimal_text decimal_of peers question
              (serialize_kwargs decimal_text decimal_of kwargs) us)
          uris
        ∙ asked (map address (before ++ after))
