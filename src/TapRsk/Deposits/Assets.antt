-- ===== src/TapRsk/Deposits/Assets.antt =====
-- The checks and the amounts of `generate_deposit_address`, and `_get_bridgeable_asset`
-- (bridge_node/bridge/bridges/tap_rsk/tap_deposits.py).
use Prim.Native.Char.{code}
use nbte_bridge.Prelude.{
  ℕ, ◌*◌, ◌/◌, ◌%◌, String, Bool, false, not, Option, none, some, is_some, ◌==◌, ◌&&◌, nat_eq,
  string_eq, if◌then◌else◌,
}
use nbte_bridge.Result.{Result, ok, err, value_error, external, raise_if, ◌>>=◌, ◌>>◌}
use nbte_bridge.Ord.Names.{is_empty}
use nbte_bridge.TapRsk.External.{External, BridgeableAsset}

-- What a deposit address is made for.
pub record DepositTerms : Type 0 where
  pub asset : BridgeableAsset
  pub rsk_address : String
  pub tap_amount : ℕ
  pub rsk_amount : ℕ

abbrev pub address_zero : String
address_zero = "0x0000000000000000000000000000000000000000"

-- The two amounts, one of which is given. Python raises on a remainder by 0.
unfoldable pub amounts : ℕ → Option ℕ → Option ℕ → Result (ℕ × ℕ)
amounts divisor tap_amount (some rsk_amount) = do
  raise_if (divisor == 0) external
  raise_if (not (rsk_amount % divisor == 0)) value_error
  ok (rsk_amount / divisor, rsk_amount)
amounts divisor (some tap_amount) none = ok (tap_amount, tap_amount * divisor)
amounts divisor none none = err value_error

-- `id.startswith("0x")`
abbrev pub starts_with_0x : String → Bool
starts_with_0x String.[] = false
starts_with_0x (String.◌∷◌ c String.[]) = false
starts_with_0x (String.◌∷◌ c (String.◌∷◌ d s)) = (code c == b'0') && (code d == b'x')

module _ (ext : External) where
  abbrev pub known_asset : BridgeableAsset → Result BridgeableAsset
  known_asset asset = do
    raise_if (asset.rsk_token == address_zero) value_error
    ok (record asset { tap_asset_id = ext.remove_0x_prefix asset.tap_asset_id })

  -- `_get_bridgeable_asset` by the token, or by the asset where the token is None or empty.
  abbrev pub asset_by_tap_id : Option String → Result BridgeableAsset
  asset_by_tap_id none = err external
  asset_by_tap_id (some tap_asset_id) = do
    asset ← ext.assets_by_taproot_asset_id (ext.add_0x_prefix tap_asset_id)
    known_asset asset

  abbrev pub asset_by_token : String → Result BridgeableAsset
  asset_by_token rsk_token = do
    checksum ← ext.to_checksum_address rsk_token
    asset ← ext.assets_by_rsk_token_address checksum
    known_asset asset

  unfoldable pub get_bridgeable_asset : Option String → Option String → Result BridgeableAsset
  get_bridgeable_asset none tap_asset_id = asset_by_tap_id tap_asset_id
  get_bridgeable_asset (some rsk_token) tap_asset_id =
      if is_empty rsk_token then asset_by_tap_id tap_asset_id else asset_by_token rsk_token

  abbrev pub without_prefix : Option String → Option String
  without_prefix none = none
  without_prefix (some id) = if starts_with_0x id then some (ext.remove_0x_prefix id) else some id

  -- The method up to the call of the daemon.
  unfoldable pub deposit_terms :
      String → Option ℕ → Option String → Option ℕ → Option String → Result DepositTerms
  deposit_terms user_rsk_address tap_amount tap_asset_id rsk_amount rsk_token_address = do
    raise_if (not (is_some tap_amount) && not (is_some rsk_amount)) value_error
    raise_if (is_some tap_amount && is_some rsk_amount) value_error
    raise_if (not (is_some tap_asset_id) && not (is_some rsk_token_address)) value_error
    raise_if (is_some tap_asset_id && is_some rsk_token_address) value_error
    asset ← get_bridgeable_asset rsk_token_address (without_prefix tap_asset_id)
    (tap, rsk) ← amounts asset.tap_amount_divisor tap_amount rsk_amount
    rsk_address ← ext.to_checksum_address user_rsk_address
    ok (record { asset = asset; rsk_address = rsk_address; tap_amount = tap; rsk_amount = rsk })
