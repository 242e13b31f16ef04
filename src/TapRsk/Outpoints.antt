-- ===== src/TapRsk/Outpoints.antt =====
-- The outpoints of deposits, as texts: `txid:vout`
-- (bridge_node/bridge/bridges/tap_rsk/tap_deposits.py). The daemon writes `vout` in digits; the signs,
-- spaces and underscores that `int` accepts too are refused here.
use Prim.Native.Char.{Char, code}
use nbte_bridge.Prelude.{
  ℕ, ◌+◌, ◌-◌, ◌*◌, String, Bool, Option, none, some, List, [], ◌∷◌, leb, ◌==◌, ◌&&◌, nat_eq,
  string_eq, if◌then◌else◌,
}
use nbte_bridge.Result.{Result, ok, err, value_error, or_raise, ◌>>=◌}

abbrev pub Outpoint : Type 0
Outpoint = String × ℕ

abbrev pub same_outpoint : Outpoint → Outpoint → Bool
same_outpoint (a, m) (b, n) = (a == b) && (m == n)

-- `int` of the digits after a number.
abbrev pub digits_from : ℕ → String → Option ℕ
digits_from n String.[] = some n
digits_from n (String.◌∷◌ c s) =
    let rest = digits_from (n * 10 + (code c - b'0')) s in
    if leb b'0' (code c) && leb (code c) b'9' then rest else none

abbrev pub int_of_text : String → Result ℕ
int_of_text String.[] = err value_error
int_of_text (String.◌∷◌ c s) = or_raise (digits_from 0 (String.◌∷◌ c s)) value_error

-- The first piece of `split(":")`, and the others.
abbrev pub cons_piece : Char → String × List String → String × List String
cons_piece c (piece, pieces) =
    if code c == b':' then (String.[], piece ∷ pieces) else (String.◌∷◌ c piece, pieces)

abbrev pub split_colon : String → String × List String
split_colon String.[] = (String.[], [])
split_colon (String.◌∷◌ c s) = cons_piece c (split_colon s)

-- `btc_tx_id, btc_tx_vout = outpoint_raw.split(":")`, which takes two pieces only.
abbrev pub two_pieces : String × List String → Result Outpoint
two_pieces (btc_tx_id, vout ∷ []) = do btc_tx_vout ← int_of_text vout; ok (btc_tx_id, btc_tx_vout)
two_pieces _ = err value_error

unfoldable pub parse_outpoint : String → Result Outpoint
parse_outpoint outpoint_raw = two_pieces (split_colon outpoint_raw)
