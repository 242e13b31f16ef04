-- ===== src/Ord/Names.antt =====
-- Rune names (bridge_node/bridge/common/ord/types.py). `pyord` is not part of the repository: its
-- `Rune.from_str` is a parameter.
use Prim.Native.Char.{Char, code}
use nbte_bridge.Prelude.{
  ℕ, String, ◌≡◌, refl, Bool, true, false, not, ◌&&◌, ◌||◌, ◌==◌, nat_eq, if◌then◌else◌, arith,
}
use nbte_bridge.Result.{Result, ok, err, value_error, ◌>>=◌}

-- `pyord.Rune`: the number of a name, and the name without spacers.
pub record PyordRune : Type 0 where
  pub n : ℕ
  pub name : String

-- "." and the bullet U+2022
abbrev pub is_spacer : Char → Bool
is_spacer c = code c == b'.' || code c == 0x2022

-- What Python and `pyord` say of names: which characters are letters (`isalpha`), which of them are
-- capitals and which are lower or title case (of `isupper`, for which the others are not cased), and
-- `Rune.from_str`.
pub record RuneNames : Type 0 where
  pub is_alpha : Char → Bool
  pub is_upper : Char → Bool
  pub is_lower : Char → Bool
  pub from_str : String → Result PyordRune

abbrev pub without_spacers : String → String
without_spacers String.[] = String.[]
without_spacers (String.◌∷◌ c s) =
    if is_spacer c then without_spacers s else String.◌∷◌ c (without_spacers s)

abbrev pub all_chars : (Char → Bool) → String → Bool
all_chars p String.[] = true
all_chars p (String.◌∷◌ c s) = p c && all_chars p s

abbrev pub any_char : (Char → Bool) → String → Bool
any_char p String.[] = false
any_char p (String.◌∷◌ c s) = p c || any_char p s

abbrev pub is_empty : String → Bool
is_empty String.[] = true
is_empty (String.◌∷◌ c s) = false

module _ (names : RuneNames) where
  -- `str.isalpha`
  abbrev pub is_alpha : String → Bool
  is_alpha s = not (is_empty s) && all_chars names.is_alpha s

  -- `str.isupper`
  abbrev pub is_upper : String → Bool
  is_upper s = any_char names.is_upper s && not (any_char names.is_lower s)

  unfoldable pub remove_spacers : String → Result String
  remove_spacers rune =
      let ret = without_spacers rune in
      if is_alpha ret then (if is_upper ret then ok ret else err value_error) else err value_error

  unfoldable pub rune_from_str : String → Result PyordRune
  rune_from_str s = remove_spacers s >>= names.from_str

without_spacers_twice : (s : String) → without_spacers (without_spacers s) ≡ without_spacers s
without_spacers_twice String.[] = refl
without_spacers_twice (String.◌∷◌ c s) = ground (arith, without_spacers_twice s)

-- A name that `remove_spacers` returns is the given one without its spacers, is not empty and has only
-- letters, of which at least one is a capital and none is lower case, and is its own normal form: a
-- second call returns it unchanged.
pub remove_spacers-remove_spacers :
    (names : RuneNames) (rune : String) {t : String}
    → remove_spacers names rune ≡ ok t
    → (remove_spacers names t ≡ ok t)
      × (t ≡ without_spacers rune)
      × (without_spacers t ≡ t)
      × (is_empty t ≡ false)
      × (all_chars names.is_alpha t ≡ true)
      × (any_char names.is_upper t ≡ true)
      × (any_char names.is_lower t ≡ false)
unfolding remove_spacers
remove_spacers-remove_spacers names rune {t} h = ground (arith, h, without_spacers_twice rune)
