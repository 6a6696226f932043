-- ===== src/Model/FilePath.antt =====
-- `validate_path` of src/model.rs: the paths that a folder may hold on every system.
pub mod Safe
use happy_active_everywhere.Base.{
  ℕ, Bool, true, false, ◌&&◌, ◌||◌, not, none, some, List, [], ◌∷◌, map, leb, ◌==◌, get_elem?, any,
  Result, ok, ensure, ◌>>=◌, ◌>>◌,
}
use happy_active_everywhere.Base.Order.{◌≟◌, lex, list_ord}
use happy_active_everywhere.Base.Text.{
  Text, text, len, is_empty, split, starts_with, to_lower, to_upper, is_control, contains,
}

-- `name.ends_with(['.', ' '])`.
unfoldable pub ends_with_dot_or_space : Text → Bool
ends_with_dot_or_space [] = false
ends_with_dot_or_space (c ∷ []) = c == b'.' || c == b' '
ends_with_dot_or_space (c ∷ d ∷ s) = ends_with_dot_or_space (d ∷ s)

unfoldable pub nonportable_char : ℕ → Bool
unfolding is_control contains
nonportable_char c = is_control c || contains c (text "<>:\"\\|?*")

-- The part of a name before its first dot, in upper case.
unfoldable pub stem_of : List Text → Text
unfolding to_upper
stem_of [] = []
stem_of (part ∷ parts) = map to_upper part

unfoldable pub stem : Text → Text
unfolding stem_of split
stem name = stem_of (split b'.' name)

unfoldable pub is_device : Text → Bool
is_device s =
    any (λ (name : Text). s ≟ name) (text "CON" ∷ text "PRN" ∷ text "AUX" ∷ text "NUL" ∷ [])

unfoldable pub is_digit_1_to_9 : ℕ → Bool
is_digit_1_to_9 c = leb b'1' c && leb c b'9'

unfoldable pub is_port : Text → Bool
unfolding starts_with len is_digit_1_to_9
is_port s =
    (starts_with s (text "COM") || starts_with s (text "LPT"))
    && len s == 4
    && (elim (get_elem? s 3) [ none ↦ false | some c ↦ is_digit_1_to_9 c ])

-- The checks of one component, in order.
unfoldable pub check_name : Text → Result (Unit {0})
unfolding ends_with_dot_or_space nonportable_char stem is_device is_port starts_with to_lower len
    list_ord lex
check_name name = do
  ensure
      (not (is_empty name) && not (name ≟ text ".") && not (name ≟ text "..") && leb (len name) 240)
      "unsafe path component"
  ensure (not (starts_with (map to_lower name) (text ".everywhere-"))) "reserved application path"
  ensure (not (ends_with_dot_or_space name)) "nonportable trailing dot or space"
  ensure (not (any nonportable_char name)) "nonportable filename"
  ensure (not (is_device (stem name))) "reserved Windows filename"
  ensure (not (is_port (stem name))) "reserved Windows filename"

unfoldable pub check_names : List Text → Result (Unit {0})
check_names [] = ok tt
check_names (name ∷ names) = do check_name name; check_names names

unfoldable pub validate_path : Text → Result (Unit {0})
unfolding len split check_names
validate_path path = do
  ensure (not (is_empty path) && leb (len path) 4096) "invalid path length"
  check_names (split b'/' path)
