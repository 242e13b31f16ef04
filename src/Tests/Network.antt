-- ===== src/Tests/Network.antt =====
-- A question of one node to two others, of which one can answer it. A Decimal is sent in unary digits.
use Prim.Native.Char.{code}
use nbte_bridge.Prelude.{
  ℕ, zero, suc, String, ◌≡◌, refl, ◌==◌, nat_eq, true, false, some, [], ◌∷◌, if◌then◌else◌,
  string_eq, arith, Bool-cases, inl, inr, ap, ◌∙◌,
}
use nbte_bridge.Prelude.Int.{ℤ, pos, negsuc}
use nbte_bridge.Result.{Result, ok, err, external}
use nbte_bridge.KeyValues.{find_value}
use nbte_bridge.Decimals.{Decimal}
use nbte_bridge.Network.Values.{
  Value, text, decimal, dataclass, Fields, no_fields, field, serialize, deserialize, received,
  received_fields, IsPlain, IsSendable, AreSendable,
}
use nbte_bridge.Network.Values.Sent.{deserialize-serialize}
use nbte_bridge.Network.Node.{Callback, PyroNetwork, Peers, answer, ask}
use nbte_bridge.Network.Ask.{shown_answers, ask_lem}

-- `n` times "1", then "0".
abbrev unary : ℕ → String → String
unary zero s = String.◌∷◌ "0" s
unary (suc n) s = String.◌∷◌ "1" (unary n s)

abbrev add_one : ℕ × String → ℕ × String
add_one (n, s) = (suc n, s)

abbrev count : String → ℕ × String
count String.[] = (0, String.[])
count (String.◌∷◌ c s) = if code c == b'0' then (0, s) else add_one (count s)

count-unary : (n : ℕ) (s : String) → count (unary n s) ≡ (n, s)
count-unary zero s = refl
count-unary (suc n) s = simp (count-unary n s)

abbrev sign_text : ℤ → ℕ → String
sign_text (pos n) places = unary 0 (unary n (unary places String.[]))
sign_text (negsuc n) places = unary 1 (unary n (unary places String.[]))

abbrev decimal_text : Decimal → String
decimal_text d = sign_text d.coefficient d.places

abbrev of_counts : ℕ → ℕ → ℕ → Decimal
of_counts zero n places = record { coefficient = pos n; places = places }
of_counts (suc s) n places = record { coefficient = negsuc n; places = places }

abbrev decimal_of_text : String → Decimal
decimal_of_text s = of_counts (count s).0 (count (count s).1).0 (count (count (count s).1).1).0

abbrev decimal_of : Value → Result Decimal
decimal_of (text s) = ok (decimal_of_text s)
decimal_of _ = err external

decimal_round_trip : (d : Decimal) → decimal_of (text (decimal_text d)) ≡ ok d
decimal_round_trip d = go d.coefficient d.places
  where
    go :
        (c : ℤ) (p : ℕ)
        → decimal_of (text (sign_text c p)) ≡ ok (record { coefficient = c; places = p })
    go (pos n) p = simp (count-unary)
    go (negsuc n) p = simp (count-unary)

abbrev fee : Decimal
fee = record { coefficient = pos 15; places = 1 }

abbrev question : Fields
question = field "amount" (decimal fee) (field "txid" (text "ab") no_fields)

sendable : AreSendable question
unfolding AreSendable IsSendable
sendable = (refl, tt, (refl, tt, tt))

question_value-IsSendable : IsSendable (dataclass question)
unfolding IsSendable
question_value-IsSendable = sendable

deserialize-serialize_example :
    IsPlain (serialize decimal_text decimal_of (dataclass question))
    × (deserialize decimal_text decimal_of (serialize decimal_text decimal_of (dataclass question))
        ≡ ok (received (dataclass question)))
deserialize-serialize_example =
    deserialize-serialize decimal_text decimal_of decimal_round_trip (dataclass question)
      question_value-IsSendable

-- A node answers with the fee that it was asked about.
abbrev callback : Callback
callback kwargs = ok (dataclass (field "fee" (decimal fee) no_fields))

abbrev node : String → PyroNetwork
node uri = record {
  node_id = uri;
  leader_node_id = "a";
  uri = uri;
  peers = ("a", "host:1") ∷ ("b", "host:2") ∷ ("c", "host:3") ∷ [];
  answer_callbacks = if uri == "PYRO:b@host:2" then ("fee", callback) ∷ [] else [];
  listeners = [];
  running = true;
}

abbrev peers : Peers
peers = record {
  answer = λ uri question fs. answer decimal_text decimal_of (node uri) question fs;
  receive = λ uri envelope. ok tt;
}

answer-IsSendable : IsSendable (dataclass (field "fee" (decimal fee) no_fields))
unfolding IsSendable
answer-IsSendable = (refl, tt, tt)

answers-IsSendable :
    (uri : String) (c : Callback) (v : Value)
    → find_value "fee" (node uri).answer_callbacks ≡ some c
    → c (received_fields question) ≡ ok v
    → IsSendable v
answers-IsSendable uri c v found called = elim (Bool-cases (uri == "PYRO:b@host:2")) [
  | inl there ↦
      let same : callback ≡ c = ground (arith, there) in
      let by : callback (received_fields question) ≡ ok v =
        ap (λ (f : Callback). f (received_fields question)) same ∙ called in
      let value : dataclass (field "fee" (decimal fee) no_fields) ≡ v = ground (arith, by) in
      rw (← value) answer-IsSendable
  | inr other ↦ absurd (ground (arith, other))
]

other : (s t : String) → s == t ≡ false → ¬ (s ≡ t)
other s t h e = let same = (string_eq.same_iff s t).1 e in ground (arith, h, same)

ask_lem_example :
    ask decimal_text decimal_of peers (node "a") "fee" question
    ≡ ok (
        shown_answers node "fee"
          (received_fields question)
          ("PYRO:b@host:2" ∷ "PYRO:c@host:3" ∷ []))
ask_lem_example =
    ask_lem decimal_text decimal_of decimal_round_trip peers node "fee" question
      (λ uri fs v plain answered whole. answered) sendable answers-IsSendable (node "a") "host:1" []
      (("b", "host:2") ∷ ("c", "host:3") ∷ []) refl tt
      (other "b" "a" refl, (other "c" "a" refl, tt))
