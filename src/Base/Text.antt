-- ===== src/Base/Text.antt =====
-- `str`: the code points of a text. Its length is that of its UTF-8 form, and its order, which in
-- UTF-8 is that of the bytes, is that of the code points.
use Prim.Native.Nat.{ℕ, ◌+◌}
use Prim.Native.Char.{code}
use Prim.Native.String.{String}
use mathlib.Core.Bool.{Bool, true, false, ◌&&◌, ◌||◌}
use mathlib.Core.List.{List, [], ◌∷◌}
use Prim.Native.Nat.{◌-◌}
use mathlib.Core.Path.{◌≡◌, refl}
use mathlib.Core.Logic.{inl, inr}
use mathlib.Core.List.{◌++◌}
use native.Mathlib.Omega.{arith}
use happy_active_everywhere.Base.Tests.{==_iff, Bool-cases}
use happy_active_everywhere.Base.Tests.{ltb, leb, ◌==◌, if◌then◌else◌}
use happy_active_everywhere.Base.Lists.{all}

abbrev pub Text : Type 0
Text = List ℕ

abbrev pub text : String → Text
text String.[] = []
text (String.◌∷◌ c s) = code c ∷ text s

-- `char::len_utf8`.
unfoldable pub len_utf8 : ℕ → ℕ
len_utf8 c = if ltb c 0x80 then 1 else if ltb c 0x800 then 2 else if ltb c 0x10000 then 3 else 4

-- `str::len`, in bytes.
unfoldable pub len : Text → ℕ
unfolding len_utf8
len [] = 0
len (c ∷ s) = len_utf8 c + len s

abbrev pub is_empty : Text → Bool
is_empty [] = true
is_empty (c ∷ s) = false

-- `b.is_ascii_hexdigit() && !b.is_ascii_uppercase()`. No byte of a code point above 127 passes.
abbrev pub is_lower_hex : ℕ → Bool
is_lower_hex b = (leb b'0' b && leb b b'9') || (leb b'a' b && leb b b'f')

-- The form of a BLAKE3 hash in text: 64 lower-case hexadecimal digits.
unfoldable pub valid_hash : Text → Bool
unfolding len
valid_hash hash = len hash == 64 && all is_lower_hex hash

-- `str::split(separator)`: always at least one part.
abbrev pub onto_first : ℕ → List Text → List Text
onto_first c [] = (c ∷ []) ∷ []
onto_first c (part ∷ parts) = (c ∷ part) ∷ parts

unfoldable pub split : ℕ → Text → List Text
split separator [] = [] ∷ []
split separator (c ∷ s) =
    let parts = split separator s in if c == separator then [] ∷ parts else onto_first c parts

unfoldable pub starts_with : Text → Text → Bool
starts_with s [] = true
starts_with [] (p ∷ ps) = false
starts_with (c ∷ s) (p ∷ ps) = c == p && starts_with s ps

unfoldable pub to_lower : ℕ → ℕ
to_lower c = if leb b'A' c && leb c b'Z' then c + 32 else c

unfoldable pub to_upper : ℕ → ℕ
to_upper c = if leb b'a' c && leb c b'z' then c - 32 else c

-- The general category Cc.
unfoldable pub is_control : ℕ → Bool
is_control c = leb c 0x1f || (leb 0x7f c && leb c 0x9f)

unfoldable pub contains : ℕ → Text → Bool
contains c [] = false
contains c (d ∷ s) = c == d || contains c s

pub len-append : (s t : Text) → len (s ++ t) ≡ len s + len t
unfolding len
len-append [] t = omega arith
len-append (c ∷ s) t = omega (arith, len-append s t)

split_nonempty :
    (separator : ℕ) (s : Text)
    → (part : Text) × (parts : List Text) × (split separator s ≡ part ∷ parts)
unfolding split
split_nonempty separator [] = ([], [], refl)
split_nonempty separator (c ∷ s) =
    let (part, parts, e) = split_nonempty separator s in
    elim (Bool-cases (c == separator)) [
      | inl h ↦ ([], split separator s, rw h)
      | inr h ↦ (c ∷ part, parts, rw (h, e))
    ]

-- Parts of a text with a separator in it: those before it and those after it.
pub split-append :
    (separator : ℕ) (s t : Text)
    → split separator (s ++ separator ∷ t) ≡ split separator s ++ split separator t
unfolding split
split-append separator [] t = rw ((==_iff separator separator).1 refl)
split-append separator (c ∷ s) t =
    let (part, parts, e) = split_nonempty separator s in
    elim (Bool-cases (c == separator)) [
      | inl h ↦ rw (h, split-append separator s t)
      | inr h ↦ rw (h, split-append separator s t, e)
    ]
