-- ===== src/Ord/Multisig/Descriptors.antt =====
-- The wallet's descriptor and its check (bridge_node/bridge/common/ord/multisig.py). The checksum of a
-- descriptor is bridge_node/bridge/common/btc/descriptors.py, which is taken from Bitcoin Core.
use Prim.Native.Char.{code}
use nbte_bridge.Prelude.{
  String, concat, Bool, not, List, [], ◌∷◌, ◌==◌, nat_eq, string_eq, if◌then◌else◌,
}
use nbte_bridge.Result.{Result, ok, err, value_error, raise_if, ◌>>=◌, ◌>>◌}

-- The arguments of the constructor that the descriptor is made of, with the text of the number of
-- signers, and what the wallet asks of bitcoind.
pub record Keys : Type 0 where
  pub master_xpubs : List String
  pub required : String
  pub base_derivation_path : String
  pub descsum_create : String → Result String
  pub list_descriptors : Result (List String)
  pub import_descriptor : String → Result (List Bool)

-- `path.replace("m", key)`
abbrev pub replace_m : String → String → String
replace_m key String.[] = String.[]
replace_m key (String.◌∷◌ c s) =
    if code c == b'm' then concat key (replace_m key s) else String.◌∷◌ c (replace_m key s)

-- `",".join(...)`
abbrev pub join_paths : String → List String → String
join_paths path [] = ""
join_paths path (key ∷ []) = replace_m key path
join_paths path (key ∷ next ∷ keys) =
    concat (replace_m key path) (concat "," (join_paths path (next ∷ keys)))

module _ (keys : Keys) where
  abbrev pub ranged_derivation_path : String
  ranged_derivation_path = concat keys.base_derivation_path "/*"

  -- `_get_descriptor` of the public keys
  unfoldable pub get_descriptor : Result String
  get_descriptor = keys.descsum_create (
      concat "wsh(sortedmulti(" (
        concat keys.required
          (concat "," (concat (join_paths ranged_derivation_path keys.master_xpubs) "))"))))

  abbrev pub check_descriptors : List String → Result (Unit {0})
  check_descriptors (desc ∷ []) = do
    expected_descriptor ← get_descriptor
    raise_if (not (desc == expected_descriptor)) value_error
  check_descriptors _ = err value_error

  -- `check`
  unfoldable pub check : Result (Unit {0})
  check = do descriptors ← keys.list_descriptors; check_descriptors descriptors

  abbrev pub all_imported : List Bool → Result (Unit {0})
  all_imported [] = ok tt
  all_imported (success ∷ rest) = do raise_if (not success) value_error; all_imported rest

  -- `import_descriptors_to_bitcoind`
  unfoldable pub import_descriptors_to_bitcoind : Result (Unit {0})
  import_descriptors_to_bitcoind = do
    desc ← get_descriptor
    response ← keys.import_descriptor desc
    all_imported response
