-- ===== src/Network/Values/Sent.antt =====
-- A value of the network's messages, sent and received.
use nbte_bridge.Prelude.{String, ◌≡◌, refl, ap, arith}
use nbte_bridge.Result.{Result, ok}
use nbte_bridge.Decimals.{Decimal}
use nbte_bridge.Network.Values.{
  Value, none_value, boolean, number, text, decimal, sequence, dict, dataclass, namespace, Fields,
  no_fields, field, serialize, serialize_fields, deserialize, deserialize_fields, as_namespace,
  received, received_fields, IsPlain, HasPlainFields, IsSendable, AreSendable,
}

module _ (decimal_text : Decimal → String) (decimal_of : Value → Result Decimal)
    (decimal_round_trip : (d : Decimal) → decimal_of (text (decimal_text d)) ≡ ok d) where
  mutual
    unfolding serialize deserialize received IsSendable

    arrives :
        (v : Value)
        → IsSendable v
        → deserialize decimal_text decimal_of (serialize decimal_text decimal_of v)
          ≡ ok (received v)
    arrives (dataclass fs) h = ap (as_namespace decimal_text decimal_of) (fields_arrive fs h)
    arrives (decimal d) h = simp (decimal_round_trip d)
    arrives (dict fs) h = ground arith
    arrives none_value h = refl
    arrives (boolean b) h = refl
    arrives (number n) h = refl
    arrives (text s) h = refl
    arrives (sequence vs) h = refl
    arrives (namespace fs) h = absurd h

    fields_arrive :
        (fs : Fields)
        → AreSendable fs
        → deserialize_fields decimal_text decimal_of (serialize_fields decimal_text decimal_of fs)
          ≡ ok (received_fields fs)
    fields_arrive no_fields h = refl
    fields_arrive (field k v fs) h = simp (h.0, arrives v h.1, fields_arrive fs h.2)

  -- `serialize` makes a sendable value plain, so that the wire carries it as it is.
  mutual
    unfolding serialize IsSendable IsPlain

    pub serialize-IsPlain :
        (v : Value) → IsSendable v → IsPlain (serialize decimal_text decimal_of v)
    serialize-IsPlain (dataclass fs) h = (tt, serialize_fields-HasPlainFields fs h)
    serialize-IsPlain (decimal d) h = (tt, (tt, tt))
    serialize-IsPlain (dict fs) h = h.0
    serialize-IsPlain none_value h = tt
    serialize-IsPlain (boolean b) h = tt
    serialize-IsPlain (number n) h = tt
    serialize-IsPlain (text s) h = tt
    serialize-IsPlain (sequence vs) h = h
    serialize-IsPlain (namespace fs) h = absurd h

    pub serialize_fields-HasPlainFields :
        (fs : Fields)
        → AreSendable fs
        → HasPlainFields (serialize_fields decimal_text decimal_of fs)
    serialize_fields-HasPlainFields no_fields h = tt
    serialize_fields-HasPlainFields (field k v fs) h =
        (serialize-IsPlain v h.1, serialize_fields-HasPlainFields fs h.2)

  -- A value whose lists and dictionaries hold plain values only, and that carries no mark of the
  -- protocol, is serialized to a plain value, and arrives as it was sent, with a SimpleNamespace of the
  -- same fields for every dataclass, if Python's Decimal of the text of a Decimal is that Decimal.
  pub deserialize-serialize :
      (v : Value)
      → IsSendable v
      → IsPlain (serialize decimal_text decimal_of v)
        × (deserialize decimal_text decimal_of (serialize decimal_text decimal_of v)
            ≡ ok (received v))
  deserialize-serialize v h = (serialize-IsPlain v h, arrives v h)
