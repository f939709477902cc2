-- ===== src/Prelude/Text.antt =====
-- Go strings as lists of bytes, and the functions of package strings that the program calls.
-- `strings.ToLower` and `strings.ToUpper` map the ASCII letters; other bytes are kept.
use Prim.Native.Nat.{ℕ, ◌+◌, ◌-◌}
use Prim.Native.Char.{code}
use Prim.Native.String.{String}
use mathlib.Core.Path.{◌≡◌, refl}
use mathlib.Core.Logic.{◌↔◌}
use mathlib.Core.Bool.{Bool, true, false, ◌&&◌, ◌||◌}
use mathlib.Core.Option.{Option, none, some}
use mathlib.Core.List.{List, [], ◌∷◌, ◌++◌, map, reverse}
use native.Mathlib.Omega.{arith}
use http_capture.Prelude.Tests.{leb, ◌==◌, if◌then◌else◌}
use http_capture.Prelude.Lists.{length, take, drop}

abbrev pub Bytes : Type 0
Bytes = List ℕ

-- The bytes of an ASCII literal.
abbrev pub codes : String → Bytes
codes String.[] = []
codes (String.◌∷◌ c s) = code c ∷ codes s

unfoldable pub str_eq : Bytes → Bytes → Bool
str_eq [] [] = true
str_eq [] (b ∷ t) = false
str_eq (a ∷ s) [] = false
str_eq (a ∷ s) (b ∷ t) = a == b && str_eq s t

pub str_eq_iff : (s t : Bytes) → (str_eq s t ≡ true) ↔ (s ≡ t)
unfolding str_eq
str_eq_iff [] [] = (λ h. refl, λ h. refl)
str_eq_iff [] (b ∷ t) = ground arith
str_eq_iff (a ∷ s) [] = ground arith
str_eq_iff (a ∷ s) (b ∷ t) = ground (arith, str_eq_iff s t)

pub str_eq_refl : (s : Bytes) → str_eq s s ≡ true
str_eq_refl s = (str_eq_iff s s).1 refl

unfoldable pub has_prefix : Bytes → Bytes → Bool
has_prefix s [] = true
has_prefix [] (p ∷ ps) = false
has_prefix (c ∷ s) (p ∷ ps) = c == p && has_prefix s ps

-- `strings.TrimPrefix`.
unfoldable pub trim_prefix : Bytes → Bytes → Bytes
unfolding has_prefix
trim_prefix s p = if has_prefix s p then drop (length p) s else s

unfoldable pub has_suffix : Bytes → Bytes → Bool
unfolding has_prefix
has_suffix s p = has_prefix (reverse s) (reverse p)

unfoldable pub trim_suffix : Bytes → Bytes → Bytes
unfolding has_suffix
trim_suffix s p = if has_suffix s p then take (length s - length p) s else s

-- `strings.Contains`.
unfoldable pub has_infix : Bytes → Bytes → Bool
unfolding has_prefix
has_infix [] p = has_prefix [] p
has_infix (c ∷ s) p = has_prefix (c ∷ s) p || has_infix s p

unfoldable pub contains_byte : ℕ → Bytes → Bool
contains_byte b [] = false
contains_byte b (c ∷ s) = c == b || contains_byte b s

-- The bytes of the white space that `strings.TrimSpace` removes, one code point at a time: the
-- length of the white space in front of a text, 0 where there is none.
unfoldable pub space_ascii : ℕ → Bool
space_ascii c = c == 32 || (leb 9 c && leb c 13)

unfoldable pub space_two : ℕ → ℕ → Bool
space_two a b = a == 0xc2 && (b == 0x85 || b == 0xa0)

unfoldable pub space_three : ℕ → ℕ → ℕ → Bool
space_three a b c =
    a == 0xe1 && b == 0x9a && c == 0x80
    || a == 0xe2 && b == 0x80 && (leb 0x80 c && leb c 0x8a || c == 0xa8 || c == 0xa9 || c == 0xaf)
    || a == 0xe2 && b == 0x81 && c == 0x9f
    || a == 0xe3 && b == 0x80 && c == 0x80

unfoldable pub trim_left : Bytes → Bytes
unfolding space_ascii space_two space_three
trim_left [] = []
trim_left (a ∷ []) = if space_ascii a then [] else a ∷ []
trim_left (a ∷ b ∷ []) =
    if space_ascii a then trim_left (b ∷ []) else if space_two a b then [] else a ∷ b ∷ []
trim_left (a ∷ b ∷ c ∷ s) =
    let one = trim_left (b ∷ c ∷ s) in
    let two = trim_left (c ∷ s) in
    let three = trim_left s in
    if space_ascii a
    then one
    else if space_two a b
    then two
    else if space_three a b c
    then three
    else a ∷ b ∷ c ∷ s

-- The same on a reversed text, whose code points have their bytes reversed.
trim_left_reversed : Bytes → Bytes
unfolding space_ascii space_two space_three
trim_left_reversed [] = []
trim_left_reversed (a ∷ []) = if space_ascii a then [] else a ∷ []
trim_left_reversed (a ∷ b ∷ []) =
    if space_ascii a then trim_left_reversed (b ∷ []) else if space_two b a then [] else a ∷ b ∷ []
trim_left_reversed (a ∷ b ∷ c ∷ s) =
    let one = trim_left_reversed (b ∷ c ∷ s) in
    let two = trim_left_reversed (c ∷ s) in
    let three = trim_left_reversed s in
    if space_ascii a
    then one
    else if space_two b a
    then two
    else if space_three c b a
    then three
    else a ∷ b ∷ c ∷ s

unfoldable pub trim_right : Bytes → Bytes
unfolding trim_left_reversed
trim_right s = reverse (trim_left_reversed (reverse s))

unfoldable pub trim_space : Bytes → Bytes
unfolding trim_left trim_right
trim_space s = trim_right (trim_left s)

unfoldable pub to_lower_byte : ℕ → ℕ
to_lower_byte c = if leb b'A' c && leb c b'Z' then c + 32 else c

unfoldable pub to_upper_byte : ℕ → ℕ
to_upper_byte c = if leb b'a' c && leb c b'z' then c - 32 else c

unfoldable pub to_lower : Bytes → Bytes
unfolding to_lower_byte
to_lower s = map to_lower_byte s

unfoldable pub to_upper : Bytes → Bytes
unfolding to_upper_byte
to_upper s = map to_upper_byte s

-- The text before the first `b`, and the text behind it.
unfoldable pub split_at_byte : ℕ → Bytes → Bytes × Option Bytes
split_at_byte b [] = ([], none)
split_at_byte b (c ∷ s) =
    let (before, after) = split_at_byte b s in if c == b then ([], some s) else (c ∷ before, after)

unfoldable pub prepend : ℕ → List Bytes → List Bytes
prepend c [] = (c ∷ []) ∷ []
prepend c (part ∷ parts) = (c ∷ part) ∷ parts

-- `strings.Split` at one byte.
unfoldable pub split_on : ℕ → Bytes → List Bytes
unfolding prepend
split_on b [] = [] ∷ []
split_on b (c ∷ s) = let parts = split_on b s in if c == b then [] ∷ parts else prepend c parts

-- `strings.Join`.
unfoldable pub join_with : Bytes → List Bytes → Bytes
join_with separator [] = []
join_with separator (s ∷ []) = s
join_with separator (s ∷ t ∷ rest) = s ++ (separator ++ join_with separator (t ∷ rest))
