-- ===== src/Python/Text.antt =====
-- `str` methods. A text is a native `String`; `codes` gives its code points. White space and
-- decimal digits are those of Unicode 15.1, the tables of the Python that Home Assistant runs on.
use Prim.Native.Char.{Char, code}
use esphome_rf_cloner.Base.{
  ℕ, suc, ◌+◌, ◌-◌, ◌<◌, ◌≡◌, String, Bool, true, false, ◌&&◌, ◌||◌, Option, none, some, List, [],
  ◌∷◌, ltb, leb, nat_beq, if◌then◌else◌, arith,
}

abbrev pub codes : String → List ℕ
codes String.[] = []
codes (String.◌∷◌ c s) = code c ∷ codes s

-- `len(s)`, in code points.
abbrev pub text_length : String → ℕ
text_length String.[] = 0
text_length (String.◌∷◌ c s) = suc (text_length s)

-- `not s`
abbrev pub is_empty : String → Bool
is_empty String.[] = true
is_empty (String.◌∷◌ c s) = false

abbrev between : ℕ → ℕ → ℕ → Bool
between lo hi c = leb lo c && leb c hi

-- White space beyond ASCII.
unfoldable pub is_wide_space : ℕ → Bool
is_wide_space c =
    nat_beq c 0x85
    || nat_beq c 0xa0
    || nat_beq c 0x1680
    || between 0x2000 0x200a c
    || between 0x2028 0x2029 c
    || nat_beq c 0x202f
    || nat_beq c 0x205f
    || nat_beq c 0x3000

-- `str.isspace` of one character.
unfoldable pub is_space : ℕ → Bool
unfolding is_wide_space
is_space c = between 9 13 c || between 28 32 c || is_wide_space c

unfoldable pub lstrip : String → String
unfolding is_space
lstrip String.[] = String.[]
lstrip (String.◌∷◌ c s) = elim (is_space (code c)) [ true ↦ lstrip s | false ↦ String.◌∷◌ c s ]

unfoldable pub rstrip : String → String
unfolding is_space
rstrip String.[] = String.[]
rstrip (String.◌∷◌ c s) =
    let rest = rstrip s in
    if is_empty rest && is_space (code c) then String.[] else String.◌∷◌ c rest

-- `s.strip()`
unfoldable pub strip : String → String
unfolding lstrip rstrip
strip s = lstrip (rstrip s)

-- `s.replace(a, b)` for one character `a`, given by its code, and one character `b`.
unfoldable pub replace : ℕ → Char → String → String
replace a b String.[] = String.[]
replace a b (String.◌∷◌ c s) =
    let rest = replace a b s in if nat_beq (code c) a then String.◌∷◌ b rest else String.◌∷◌ c rest

-- `char.isascii() and char.isalnum()`: a letter or a digit of ASCII.
unfoldable pub is_ascii_alnum : ℕ → Bool
is_ascii_alnum c = between 48 57 c || between 65 90 c || between 97 122 c

-- The code points of the digit zero in each script beyond ASCII.
unfoldable pub wide_zeros : List ℕ
wide_zeros =
    0x660 ∷ 0x6f0 ∷ 0x7c0 ∷ 0x966 ∷ 0x9e6 ∷ 0xa66 ∷ 0xae6 ∷ 0xb66 ∷ 0xbe6 ∷ 0xc66 ∷ 0xce6 ∷ 0xd66
    ∷ 0xde6 ∷ 0xe50 ∷ 0xed0 ∷ 0xf20 ∷ 0x1040 ∷ 0x1090 ∷ 0x17e0 ∷ 0x1810 ∷ 0x1946 ∷ 0x19d0 ∷ 0x1a80
    ∷ 0x1a90 ∷ 0x1b50 ∷ 0x1bb0 ∷ 0x1c40 ∷ 0x1c50 ∷ 0xa620 ∷ 0xa8d0 ∷ 0xa900 ∷ 0xa9d0 ∷ 0xa9f0
    ∷ 0xaa50 ∷ 0xabf0 ∷ 0xff10 ∷ 0x104a0 ∷ 0x10d30 ∷ 0x11066 ∷ 0x110f0 ∷ 0x11136 ∷ 0x111d0 ∷ 0x112f0
    ∷ 0x11450 ∷ 0x114d0 ∷ 0x11650 ∷ 0x116c0 ∷ 0x11730 ∷ 0x118e0 ∷ 0x11950 ∷ 0x11c50 ∷ 0x11d50
    ∷ 0x11da0 ∷ 0x11f50 ∷ 0x16a60 ∷ 0x16ac0 ∷ 0x16b50 ∷ 0x1d7ce ∷ 0x1d7d8 ∷ 0x1d7e2 ∷ 0x1d7ec
    ∷ 0x1d7f6 ∷ 0x1e140 ∷ 0x1e2f0 ∷ 0x1e4f0 ∷ 0x1e950 ∷ 0x1fbf0 ∷ []

decimal_in : List ℕ → ℕ → Option ℕ
decimal_in [] c = none
decimal_in (z ∷ zs) c =
    let rest = decimal_in zs c in if leb z c && ltb c (z + 10) then some (c - z) else rest

-- `unicodedata.decimal(char, None)`
unfoldable pub decimal_value : ℕ → Option ℕ
unfolding decimal_in wide_zeros
decimal_value c = decimal_in (0x30 ∷ wide_zeros) c

decimal_in-head : (z : ℕ) (zs : List ℕ) (d : ℕ) → d < 10 → decimal_in (z ∷ zs) (z + d) ≡ some d
unfolding decimal_in
decimal_in-head z zs d h = ground arith

pub decimal_value-ascii : (d : ℕ) → d < 10 → decimal_value (48 + d) ≡ some d
unfolding decimal_value
decimal_value-ascii d h = decimal_in-head 48 wide_zeros d h
