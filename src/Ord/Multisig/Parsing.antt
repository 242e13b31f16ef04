-- ===== src/Ord/Multisig/Parsing.antt =====
-- `parse_p2wsh_multisig_utxo_descriptor` (bridge_node/bridge/common/btc/multisig_utils.py): the keys of
-- the descriptor of an unspent output. Its two regular expressions are written out as what they accept.
use Prim.Native.Char.{Char, code}
use nbte_bridge.Prelude.{
  ℕ, ◌+◌, ◌-◌, ◌*◌, String, concat, Bool, true, false, not, Option, none, some, List, [], ◌∷◌,
  length, leb, ◌==◌, ◌&&◌, ◌||◌, nat_eq, string_eq, if◌then◌else◌,
}
use nbte_bridge.Result.{Result, ok, err, value_error, or_raise, raise_if, ◌>>=◌, ◌>>◌}
use nbte_bridge.KeyValues.{put_value}
use nbte_bridge.Ord.Names.{is_empty, all_chars}

abbrev pub Bytes : Type 0
Bytes = List ℕ

abbrev pub same_bytes : Bytes → Bytes → Bool
same_bytes [] [] = true
same_bytes (x ∷ xs) (y ∷ ys) = (x == y) && same_bytes xs ys
same_bytes [] (y ∷ ys) = false
same_bytes (x ∷ xs) [] = false

-- The value of a character that `\d` accepts, and what bitcointx makes of a derivation and of a public
-- key: `PSBT_KeyDerivationInfo` of a fingerprint and the `BIP32Path` of a text, and `CPubKey.fromhex`.
pub record KeyParser : Type 0 where
  pub decimal_value : Char → Option ℕ
  pub derivation_info : Bytes → String → Result String
  pub pubkey_from_hex : String → Result String

pub record DescriptorParseResult : Type 0 where
  pub num_required_signers : ℕ
  pub num_signers : ℕ
  pub derivation_map : List (String × String)
  -- a set, of which only the members count
  pub master_fingerprints : List Bytes

abbrev pub in_range : ℕ → ℕ → Char → Bool
in_range first last c = leb first (code c) && leb (code c) last

-- `[a-f0-9]`, `[a-z0-9]` and `[a-z0-f]`; the last range is the one from "0" to "f".
abbrev pub is_hex_char : Char → Bool
is_hex_char c = in_range b'a' b'f' c || in_range b'0' b'9' c

abbrev pub is_checksum_char : Char → Bool
is_checksum_char c = in_range b'a' b'z' c || in_range b'0' b'9' c

abbrev pub is_fingerprint_char : Char → Bool
is_fingerprint_char c = in_range b'a' b'z' c || in_range b'0' b'f' c

-- One or more characters of a kind.
abbrev pub is_word : (Char → Bool) → String → Bool
is_word p s = not (is_empty s) && all_chars p s

abbrev pub strip_prefix : String → String → Option String
strip_prefix String.[] s = some s
strip_prefix (String.◌∷◌ c p) String.[] = none
strip_prefix (String.◌∷◌ c p) (String.◌∷◌ d s) =
    let rest = strip_prefix p s in if code c == code d then rest else none

abbrev pub after_char : Char → Option (String × String) → Option (String × String)
after_char c none = none
after_char c (some (before, after)) = some (String.◌∷◌ c before, after)

-- The text before the first character with a code, and the text after it.
abbrev pub split_first : ℕ → String → Option (String × String)
split_first k String.[] = none
split_first k (String.◌∷◌ c s) =
    let later = after_char c (split_first k s) in if code c == k then some (String.[], s) else later

abbrev pub last_or_here : ℕ → Char → String → Option (String × String) → Option (String × String)
last_or_here k c s none = if code c == k then some (String.[], s) else none
last_or_here k c s (some later) = after_char c (some later)

-- The text before the last character with a code, and the text after it.
abbrev pub split_last : ℕ → String → Option (String × String)
split_last k String.[] = none
split_last k (String.◌∷◌ c s) = last_or_here k c s (split_last k s)

-- The text without a character with this code at its end.
abbrev pub strip_last : ℕ → String → Option String
strip_last k s = elim (split_last k s) [
  | none ↦ none
  | some parts ↦ if is_empty parts.1 then some parts.0 else none
]

abbrev pub strip_optional : ℕ → String → String
strip_optional k s = elim (strip_last k s) [ none ↦ s | some t ↦ t ]

-- `split(",")`
abbrev pub add_to_first : Char → List String → List String
add_to_first c [] = String.◌∷◌ c String.[] ∷ []
add_to_first c (piece ∷ pieces) = String.◌∷◌ c piece ∷ pieces

abbrev pub split_commas : String → List String
split_commas String.[] = String.[] ∷ []
split_commas (String.◌∷◌ c s) =
    let pieces = split_commas s in
    if code c == b',' then String.[] ∷ pieces else add_to_first c pieces

-- `bytes.fromhex` of a text without spaces
abbrev pub hex_value : Char → Option ℕ
hex_value c =
    if in_range b'0' b'9' c
    then some (code c - b'0')
    else if in_range b'a' b'f' c
    then some (code c - b'a' + 10)
    else if in_range b'A' b'F' c
    then some (code c - b'A' + 10)
    else none

abbrev pub bytes_from_hex : String → Result Bytes
bytes_from_hex String.[] = ok []
bytes_from_hex (String.◌∷◌ c String.[]) = err value_error
bytes_from_hex (String.◌∷◌ c (String.◌∷◌ d s)) = do
  high ← or_raise (hex_value c) value_error
  low ← or_raise (hex_value d) value_error
  rest ← bytes_from_hex s
  ok ((high * 16 + low) ∷ rest)

-- The second group of the first expression, `(?:\[.*?\][a-f0-9]+,?)+`: its first `.*?` can take up
-- everything to the last "]", but no line break, which is character 10.
abbrev pub check_infos : String → Result (Unit {0})
check_infos infos = do
  rest ← or_raise (strip_prefix "[" infos) value_error
  parts ← or_raise (split_last b']' (strip_optional b',' rest)) value_error
  raise_if (not (is_word is_hex_char parts.1)) value_error
  raise_if (not (all_chars (λ c. not (code c == 10)) parts.0)) value_error

module _ (parser : KeyParser) where
  -- `int` of one or more digits, after a number
  abbrev pub int_of_digits : ℕ → String → Result ℕ
  int_of_digits n String.[] = ok n
  int_of_digits n (String.◌∷◌ c s) = do
    digit ← or_raise (parser.decimal_value c) value_error
    int_of_digits (n * 10 + digit) s

  -- The first expression: the number of signers and the second group. `$` also stands before a line
  -- break at the end.
  unfoldable pub match_descriptor : String → Result (ℕ × String)
  match_descriptor descriptor = do
    arguments ← or_raise (strip_prefix "wsh(multi(" descriptor) value_error
    required ← or_raise (split_first b',' arguments) value_error
    raise_if (is_empty required.0) value_error
    num_required_signers ← int_of_digits 0 required.0
    parts ← or_raise (split_last b'#' required.1) value_error
    raise_if (not (is_word is_checksum_char (strip_optional 10 parts.1))) value_error
    closed ← or_raise (strip_last b')' parts.0) value_error
    infos ← or_raise (strip_last b')' closed) value_error
    check_infos infos
    ok (num_required_signers, infos)

  -- A turn of the loop: the public key with its derivation, and the fingerprint. The second expression
  -- is `^\[([a-z0-f]+)/(.*)\]([a-f0-9]+)$`, for a text without line breaks.
  unfoldable pub parse_info : String → Result (String × (String × Bytes))
  parse_info pubkey_derivation_info = do
    rest ← or_raise (strip_prefix "[" pubkey_derivation_info) value_error
    origin ← or_raise (split_first b'/' rest) value_error
    raise_if (not (is_word is_fingerprint_char origin.0)) value_error
    key ← or_raise (split_last b']' origin.1) value_error
    raise_if (not (is_word is_hex_char key.1)) value_error
    master_fingerprint ← bytes_from_hex origin.0
    info ← parser.derivation_info master_fingerprint (concat "m/" key.0)
    pubkey ← parser.pubkey_from_hex key.1
    ok (pubkey, (info, master_fingerprint))

  abbrev pub parse_infos : List String → DescriptorParseResult → Result DescriptorParseResult
  parse_infos [] result = ok result
  parse_infos (info ∷ infos) result = do
    parsed ← parse_info info
    parse_infos infos (record result {
      derivation_map = put_value parsed.0 parsed.1.0 result.derivation_map;
      master_fingerprints = parsed.1.1 ∷ result.master_fingerprints;
    })

  unfoldable pub parse_p2wsh_multisig_utxo_descriptor : String → Result DescriptorParseResult
  parse_p2wsh_multisig_utxo_descriptor descriptor = do
    matched ← match_descriptor descriptor
    parse_infos (split_commas matched.1) (record {
      num_required_signers = matched.0;
      num_signers = length (split_commas matched.1);
      derivation_map = [];
      master_fingerprints = [];
    })
