-- ===== src/Network/Values.antt =====
-- `serialize` and `deserialize` of the network's messages
-- (bridge_node/bridge/common/p2p/network.py). The text of a Decimal and the Decimal of a text are
-- Python's `str` and `Decimal`.
pub mod Sent
use nbte_bridge.Prelude.{
  ℕ, String, ◌≡◌, refl, ap, Bool, true, false, not, Option, none, some, ◌==◌, string_eq,
  if◌then◌else◌, arith, nat_eq,
}
use nbte_bridge.Result.{Result, ok, lookup_error, or_raise, ◌>>=◌}
use nbte_bridge.Prelude.Int.{ℤ, pos, negsuc}
use nbte_bridge.Decimals.{Decimal}

-- What the nodes send to each other: `dataclass` is an instance of a dataclass with its fields,
-- `namespace` a SimpleNamespace, `dict` a dictionary with texts for keys.
mutual
  pub data Value : Type 0 where
    none_value : Value
    boolean : Bool → Value
    number : ℕ → Value
    text : String → Value
    decimal : Decimal → Value
    sequence : Values → Value
    dict dataclass namespace : Fields → Value

  pub data Values : Type 0 where
    nil : Values
    cons : Value → Values → Values

  pub data Fields : Type 0 where
    no_fields : Fields
    field : String → Value → Fields → Fields

-- `value.get(key)`
abbrev pub get : String → Fields → Option Value
get key no_fields = none
get key (field k v fs) = if k == key then some v else get key fs

abbrev pub is_not_zero : ℤ → Bool
is_not_zero (pos n) = not (n == 0)
is_not_zero (negsuc n) = true

-- Python's truth of the value that `get` returns.
abbrev pub is_true : Option Value → Bool
is_true (some (boolean b)) = b
is_true (some (number n)) = not (n == 0)
is_true (some none_value) = false
is_true (some (decimal d)) = is_not_zero d.coefficient
is_true (some (text s)) = not (s == "")
is_true (some (sequence nil)) = false
is_true (some (dict no_fields)) = false
is_true (some v) = true
is_true none = false

abbrev pub is_dataclass_key : String
is_dataclass_key = "_is_dataclass"

module _ (decimal_text : Decimal → String) (decimal_of : Value → Result Decimal) where
  -- `serialize`. No dataclass of the bridge has a field with the name of the mark.
  unfoldable mutual
    pub serialize : Value → Value
    serialize (dataclass fs) = dict (field is_dataclass_key (boolean true) (serialize_fields fs))
    serialize (decimal d) =
        dict (field "_is_decimal" (boolean true) (field "value" (text (decimal_text d)) no_fields))
    serialize none_value = none_value
    serialize (boolean b) = boolean b
    serialize (number n) = number n
    serialize (text s) = text s
    serialize (sequence vs) = sequence vs
    serialize (dict fs) = dict fs
    serialize (namespace fs) = namespace fs

    pub serialize_fields : Fields → Fields
    serialize_fields no_fields = no_fields
    serialize_fields (field k v fs) = field k (serialize v) (serialize_fields fs)

  -- The dictionary without the mark of a dataclass.
  abbrev pub as_decimal : Fields → Result Value
  as_decimal fs = do v ← or_raise (get "value" fs) lookup_error; d ← decimal_of v; ok (decimal d)

  abbrev pub as_namespace : Result Fields → Result Value
  as_namespace r = do fs ← r; ok (namespace fs)

  abbrev pub add_field : String → Result Value → Result Fields → Result Fields
  add_field key value rest = do v ← value; fs ← rest; ok (field key v fs)

  -- `deserialize`
  unfoldable mutual
    pub deserialize : Value → Result Value
    deserialize (dict fs) =
        let fields = deserialize_fields fs in
        if is_true (get is_dataclass_key fs)
        then as_namespace fields
        else if is_true (get "_is_decimal" fs)
        then as_decimal fs
        else ok (dict fs)
    deserialize none_value = ok none_value
    deserialize (boolean b) = ok (boolean b)
    deserialize (number n) = ok (number n)
    deserialize (text s) = ok (text s)
    deserialize (decimal d) = ok (decimal d)
    deserialize (sequence vs) = ok (sequence vs)
    deserialize (dataclass fs) = ok (dataclass fs)
    deserialize (namespace fs) = ok (namespace fs)

    pub deserialize_fields : Fields → Result Fields
    deserialize_fields no_fields = ok no_fields
    deserialize_fields (field k v fs) =
        let value = deserialize v in
        let rest = deserialize_fields fs in
        if k == is_dataclass_key then rest else add_field k value rest

-- What the receiver of a value gets: a dataclass without its methods.
unfoldable mutual
  pub received : Value → Value
  received (dataclass fs) = namespace (received_fields fs)
  received none_value = none_value
  received (boolean b) = boolean b
  received (number n) = number n
  received (text s) = text s
  received (decimal d) = decimal d
  received (sequence vs) = sequence vs
  received (dict fs) = dict fs
  received (namespace fs) = namespace fs

  pub received_fields : Fields → Fields
  received_fields no_fields = no_fields
  received_fields (field k v fs) = field k (received v) (received_fields fs)

-- A value that the wire carries as it is.
unfoldable mutual
  pub IsPlain : Value → Type 0
  IsPlain none_value = Unit
  IsPlain (boolean b) = Unit
  IsPlain (number n) = Unit
  IsPlain (text s) = Unit
  IsPlain (sequence vs) = ArePlain vs
  IsPlain (dict fs) = HasPlainFields fs
  IsPlain (decimal d) = ⊥
  IsPlain (dataclass fs) = ⊥
  IsPlain (namespace fs) = ⊥

  pub ArePlain : Values → Type 0
  ArePlain nil = Unit
  ArePlain (cons v vs) = IsPlain v × ArePlain vs

  pub HasPlainFields : Fields → Type 0
  HasPlainFields no_fields = Unit
  HasPlainFields (field k v fs) = IsPlain v × HasPlainFields fs

-- A value that `serialize` makes plain: lists and dictionaries hold plain values only, since it does
-- not look into them, no dictionary carries one of the marks, and no field is named like one.
unfoldable mutual
  pub IsSendable : Value → Type 0
  IsSendable (dataclass fs) = AreSendable fs
  IsSendable (dict fs) =
      HasPlainFields fs
      × (is_true (get is_dataclass_key fs) ≡ false)
      × (is_true (get "_is_decimal" fs) ≡ false)
  IsSendable none_value = Unit
  IsSendable (boolean b) = Unit
  IsSendable (number n) = Unit
  IsSendable (text s) = Unit
  IsSendable (decimal d) = Unit
  IsSendable (sequence vs) = ArePlain vs
  IsSendable (namespace fs) = ⊥

  pub AreSendable : Fields → Type 0
  AreSendable no_fields = Unit
  AreSendable (field k v fs) = (k == is_dataclass_key ≡ false) × IsSendable v × AreSendable fs
