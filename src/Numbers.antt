-- ===== src/Numbers.antt =====
-- `strconv.Atoi` and `strconv.Itoa`, which the commands call for the port of a proxy address: an optional sign and
-- decimal digits, and nothing out of the range of int64.
use http_capture.Prelude.{
  ℕ, zero, suc, ◌+◌, ◌*◌, ◌-◌, ◌^◌, ◌/◌, ◌%◌, not, ◌&&◌, ℤ, pos, negsuc, Bytes, codes, [], ◌∷◌,
  Option, none, some, if◌then◌else◌, leb, ◌==◌, ◌≡◌, refl,
}

digits : Bytes → ℕ → Option ℕ
digits [] n = some n
digits (c ∷ s) n =
    let rest = digits s (n * 10 + (c - b'0')) in if leb b'0' c && leb c b'9' then rest else none

unsigned : Bytes → Option ℕ
unfolding digits
unsigned [] = none
unsigned (c ∷ s) = digits (c ∷ s) 0

negated : ℕ → ℤ
negated zero = pos 0
negated (suc n) = negsuc n

within : ℕ → (ℕ → ℤ) → Option ℕ → Option ℤ
within bound sign none = none
within bound sign (some n) = if leb n bound then some (sign n) else none

unfoldable pub atoi : Bytes → Option ℤ
unfolding unsigned negated within
atoi [] = none
atoi (c ∷ s) =
    if c == b'-'
    then within (2 ^ 63) negated (unsigned s)
    else if c == b'+'
    then within (2 ^ 63 - 1) pos (unsigned s)
    else within (2 ^ 63 - 1) pos (unsigned (c ∷ s))

-- `strconv.ParseInt` with its error ignored: a number out of range becomes the nearest one, and
-- what is no number 0.
nearest : ℕ → (ℕ → ℤ) → Option ℕ → ℤ
nearest bound sign none = pos 0
nearest bound sign (some n) = if leb n bound then sign n else sign bound

-- The digits are read up to the first that makes the number exceed 64 bits.
scanned : Bytes → ℕ → Option ℕ
scanned [] n = some n
scanned (c ∷ s) n =
    let next = n * 10 + (c - b'0') in
    let rest = scanned s next in
    if not (leb b'0' c && leb c b'9') then none else if leb (2 ^ 64) next then some next else rest

unsigned_scanned : Bytes → Option ℕ
unfolding scanned
unsigned_scanned [] = none
unsigned_scanned (c ∷ s) = scanned (c ∷ s) 0

unfoldable pub parse_int : Bytes → ℤ
unfolding unsigned_scanned negated nearest
parse_int [] = pos 0
parse_int (c ∷ s) =
    if c == b'-'
    then nearest (2 ^ 63) negated (unsigned_scanned s)
    else if c == b'+'
    then nearest (2 ^ 63 - 1) pos (unsigned_scanned s)
    else nearest (2 ^ 63 - 1) pos (unsigned_scanned (c ∷ s))

-- `strconv.Itoa`: a number has at most as many digits as its value has units, and one.
to_digits : ℕ → ℕ → Bytes → Bytes
to_digits zero n rest = rest
to_digits (suc f) n rest =
    let more = to_digits f (n / 10) ((b'0' + n % 10) ∷ rest) in
    if n / 10 == 0 then (b'0' + n % 10) ∷ rest else more

unfoldable pub itoa : ℤ → Bytes
unfolding to_digits
itoa (pos n) = to_digits (suc n) n []
itoa (negsuc n) = b'-' ∷ to_digits (suc (suc n)) (suc n) []

itoa_forms : (itoa (pos 8899) ≡ codes "8899") × (itoa (negsuc 0) ≡ codes "-1")
unfolding itoa
itoa_forms = (refl, refl)

atoi_forms : (atoi (codes "-12") ≡ some (negsuc 11)) × (atoi (codes "+") ≡ none)
unfolding atoi
atoi_forms = (refl, refl)
