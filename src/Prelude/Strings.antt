-- ===== src/Prelude/Strings.antt =====
-- Texts as lists of bytes (code points, which are the bytes of ASCII text), and what the code uses
-- of Go's standard library on them: strconv.Atoi, strings.TrimSpace, http.CanonicalHeaderKey and
-- encoding/hex.
use Prim.Native.Nat.{ℕ, ◌+◌, ◌-◌, ◌*◌, ◌/◌, ◌%◌, ◌^◌}
use Prim.Native.Char.{code}
use Prim.Native.String.{String}
use mathlib.Core.Path.{◌≡◌, refl}
use mathlib.Core.Bool.{Bool, true, false, not, ◌&&◌, ◌||◌}
use mathlib.Core.Option.{Option, none, some}
use mathlib.Core.List.{List, [], ◌∷◌, reverse}
use native.Mathlib.Omega.{arith}
use vaulthook.Prelude.Tests.{ltb, leb, ◌==◌, if◌then◌else◌}

abbrev pub Text : Type 0
Text = List ℕ

abbrev pub codes : String → Text
codes String.[] = []
codes (String.◌∷◌ c s) = code c ∷ codes s

abbrev pub text_eq : Text → Text → Bool
text_eq [] [] = true
text_eq [] (b ∷ bs) = false
text_eq (a ∷ as') [] = false
text_eq (a ∷ as') (b ∷ bs) = a == b && text_eq as' bs

pub text_eq_sound : (a b : Text) → text_eq a b ≡ true → a ≡ b
text_eq_sound [] [] h = refl
text_eq_sound [] (b ∷ bs) h = ground arith
text_eq_sound (a ∷ as') [] h = ground arith
text_eq_sound (a ∷ as') (b ∷ bs) h = ground (arith, text_eq_sound as' bs)

pub text_eq_self : (a : Text) → text_eq a a ≡ true
text_eq_self [] = refl
text_eq_self (a ∷ as') = ground (arith, text_eq_self as')

-- ---------------------------------------------------------------- strconv.Atoi
abbrev is_digit : ℕ → Bool
is_digit c = leb b'0' c && leb c b'9'

-- The value of a run of decimal digits.
digits_value : ℕ → Text → Option ℕ
digits_value n [] = some n
digits_value n (c ∷ cs) =
    let rest = digits_value (n * 10 + (c - b'0')) cs in if is_digit c then rest else none

-- `none` is Atoi's error; a negative number is kept as 0, since the code only asks for positive ones.
unsigned : Text → Option ℕ
unfolding digits_value
unsigned [] = none
unsigned (c ∷ cs) = digits_value 0 (c ∷ cs)

abbrev fits_int64 : Option ℕ → Option ℕ
fits_int64 none = none
fits_int64 (some n) = if ltb n (2 ^ 63) then some n else none

abbrev negative : Option ℕ → Option ℕ
negative none = none
negative (some n) = if leb n (2 ^ 63) then some 0 else none

unfoldable pub atoi : Text → Option ℕ
unfolding unsigned
atoi [] = none
atoi (c ∷ cs) =
    if c == b'-'
    then negative (unsigned cs)
    else if c == b'+'
    then fits_int64 (unsigned cs)
    else fits_int64 (unsigned (c ∷ cs))

-- ---------------------------------------------------------------- strings.TrimSpace
-- unicode.IsSpace
abbrev is_space : ℕ → Bool
is_space c =
    c == 0x20
    || (leb 9 c && leb c 13)
    || c == 0x85
    || c == 0xA0
    || c == 0x1680
    || (leb 0x2000 c && leb c 0x200A)
    || c == 0x2028
    || c == 0x2029
    || c == 0x202F
    || c == 0x205F
    || c == 0x3000

trim_left : Text → Text
trim_left [] = []
trim_left (c ∷ cs) = if is_space c then trim_left cs else c ∷ cs

unfoldable pub trim_space : Text → Text
unfolding trim_left
trim_space s = reverse (trim_left (reverse (trim_left s)))

pub trim_space-nil : trim_space [] ≡ []
unfolding trim_space
trim_space-nil = refl

-- ---------------------------------------------------------------- http.CanonicalHeaderKey
abbrev is_lower : ℕ → Bool
is_lower c = leb b'a' c && leb c b'z'

abbrev is_upper : ℕ → Bool
is_upper c = leb b'A' c && leb c b'Z'

-- RFC 7230 tokens: letters, digits and !#$%&'*+-.^_`|~
abbrev is_token : ℕ → Bool
is_token c =
    is_lower c
    || is_upper c
    || is_digit c
    || c == 0x21
    || (leb 0x23 c && leb c 0x27)
    || c == 0x2A
    || c == 0x2B
    || c == 0x2D
    || c == 0x2E
    || c == 0x5E
    || c == 0x5F
    || c == 0x60
    || c == 0x7C
    || c == 0x7E

abbrev all_tokens : Text → Bool
all_tokens [] = true
all_tokens (c ∷ cs) = is_token c && all_tokens cs

abbrev fold_case : Bool → ℕ → ℕ
fold_case upper c =
    if upper && is_lower c then c - 32 else if not upper && is_upper c then c + 32 else c

-- The first letter, and each one after a dash, in upper case; all others in lower case.
canonical_from : Bool → Text → Text
canonical_from upper [] = []
canonical_from upper (c ∷ cs) = let d = fold_case upper c in d ∷ canonical_from (d == b'-') cs

unfoldable pub canonical_header_key : Text → Text
unfolding canonical_from
canonical_header_key k = if all_tokens k then canonical_from true k else k

-- ---------------------------------------------------------------- encoding/hex
abbrev pub hex_digit : ℕ → ℕ
hex_digit n = if ltb n 10 then n + b'0' else n - 10 + b'a'

unfoldable pub hex_encode : Text → Text
hex_encode [] = []
hex_encode (b ∷ bs) = hex_digit (b / 16) ∷ hex_digit (b % 16) ∷ hex_encode bs

abbrev pub hex_value : ℕ → Option ℕ
hex_value c =
    if is_digit c
    then some (c - b'0')
    else if leb b'a' c && leb c b'f'
    then some (c - b'a' + 10)
    else if leb b'A' c && leb c b'F'
    then some (c - b'A' + 10)
    else none

abbrev pub hex_byte : Option ℕ → Option ℕ → Option Text → Option Text
hex_byte (some h) (some l) (some bs) = some ((h * 16 + l) ∷ bs)
hex_byte _ _ _ = none

-- `none` is the error of an odd length or of a byte that is no hexadecimal digit.
unfoldable pub hex_decode : Text → Option Text
hex_decode [] = some []
hex_decode (h ∷ []) = none
hex_decode (h ∷ l ∷ cs) = hex_byte (hex_value h) (hex_value l) (hex_decode cs)
