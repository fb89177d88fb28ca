-- ===== src/Python/Decimal.antt =====
-- `str(n)` and `int(text)` in base ten. The limit of 4300 digits that Python sets on both is not
-- modelled: the numbers that the program converts are ids and counters of at most 64 bits.
use Prim.Native.Char.{Char, code}
use mathlib.Core.Path.{subst}
use esphome_rf_cloner.Base.{
  ℕ, zero, suc, ◌+◌, ◌*◌, ◌/◌, ◌%◌, ◌<◌, ◌≤◌, ℤ, pos, negsuc, negate, ◌≡◌, refl, inl, inr,
  Bool-cases, String, Bool, true, false, ◌&&◌, ◌||◌, Option, none, some, List, [], ◌∷◌, ltb, leb,
  nat_beq, if◌then◌else◌, arith, all, ap, ◌∙◌, ltb→lt, not-ltb→le, sym,
}
use esphome_rf_cloner.Python.Text.{codes, is_wide_space, decimal_value, decimal_value-ascii}

abbrev digit_char : ℕ → Char
digit_char zero = "0"
digit_char (suc zero) = "1"
digit_char (suc (suc zero)) = "2"
digit_char (suc (suc (suc zero))) = "3"
digit_char (suc (suc (suc (suc zero)))) = "4"
digit_char (suc (suc (suc (suc (suc zero))))) = "5"
digit_char (suc (suc (suc (suc (suc (suc zero)))))) = "6"
digit_char (suc (suc (suc (suc (suc (suc (suc zero))))))) = "7"
digit_char (suc (suc (suc (suc (suc (suc (suc (suc zero)))))))) = "8"
digit_char _ = "9"

-- The digits of `n` in front of `rest`.
show_onto : ℕ → ℕ → String → String
show_onto zero n rest = rest
show_onto (suc fuel) n rest =
    let more = show_onto fuel (n / 10) (String.◌∷◌ (digit_char (n % 10)) rest) in
    if ltb n 10 then String.◌∷◌ (digit_char n) rest else more

unfoldable pub show_nat : ℕ → String
unfolding show_onto
show_nat n = show_onto (n + 1) n String.[]

-- `str(n)`
unfoldable pub show_int : ℤ → String
unfolding show_nat
show_int (pos n) = show_nat n
show_int (negsuc n) = String.◌∷◌ "-" (show_nat (n + 1))

-- The white space that `int` skips at either end.
unfoldable pub is_int_space : ℕ → Bool
unfolding is_wide_space
is_int_space c = (leb 9 c && leb c 13) || nat_beq c 32 || is_wide_space c

-- The digits read so far, and whether a digit has to come next: at the start and after `_`.
abbrev step : Option ℕ → ℕ → Bool → ℕ → List ℕ → (ℕ → Bool → Option ℕ) → Option ℕ
step (some d) acc need c cs next = next (acc * 10 + d) false
step none acc true c cs next = none
step none acc false c cs next =
    if nat_beq c b'_' then next acc true else if all is_int_space (c ∷ cs) then some acc else none

unfoldable pub read : ℕ → Bool → List ℕ → Option ℕ
unfolding decimal_value
read acc need [] = if need then none else some acc
read acc need (c ∷ cs) = step (decimal_value c) acc need c cs (λ a n. read a n cs)

abbrev pub signed : (ℕ → ℤ) → Option ℕ → Option ℤ
signed f none = none
signed f (some n) = some (f n)

unfoldable pub after_space : List ℕ → Option ℤ
after_space [] = none
after_space (c ∷ cs) =
    if nat_beq c b'-'
    then signed negate (read 0 true cs)
    else if nat_beq c b'+'
    then signed pos (read 0 true cs)
    else signed pos (read 0 true (c ∷ cs))

unfoldable pub skip_space : List ℕ → List ℕ
skip_space [] = []
skip_space (c ∷ cs) = elim (is_int_space c) [ true ↦ skip_space cs | false ↦ c ∷ cs ]

-- `int(text)`; `none` is a `ValueError`.
unfoldable pub parse_int : String → Option ℤ
parse_int s = after_space (skip_space (codes s))

digit_char-code : (d : ℕ) → d < 10 → code (digit_char d) ≡ 48 + d
digit_char-code zero h = refl
digit_char-code (suc zero) h = refl
digit_char-code (suc (suc zero)) h = refl
digit_char-code (suc (suc (suc zero))) h = refl
digit_char-code (suc (suc (suc (suc zero)))) h = refl
digit_char-code (suc (suc (suc (suc (suc zero))))) h = refl
digit_char-code (suc (suc (suc (suc (suc (suc zero)))))) h = refl
digit_char-code (suc (suc (suc (suc (suc (suc (suc zero))))))) h = refl
digit_char-code (suc (suc (suc (suc (suc (suc (suc (suc zero)))))))) h = refl
digit_char-code (suc (suc (suc (suc (suc (suc (suc (suc (suc zero))))))))) h = refl
digit_char-code (suc (suc (suc (suc (suc (suc (suc (suc (suc (suc d)))))))))) h =
    absurd (omega arith)

-- One more digit is read.
read-digit_char :
    (acc : ℕ) (need : Bool) (d : ℕ) (cs : List ℕ)
    → d < 10
    → read acc need (code (digit_char d) ∷ cs) ≡ read (acc * 10 + d) false cs
unfolding read
read-digit_char acc need d cs h = rw (digit_char-code d h, decimal_value-ascii d h) refl

-- Reading what `show_onto` wrote gives the number back.
read-show_onto :
    (fuel n : ℕ) (rest : String)
    → n < fuel
    → read 0 true (codes (show_onto fuel n rest)) ≡ read n false (codes rest)
unfolding show_onto
read-show_onto zero n rest h = absurd (omega arith)
read-show_onto (suc fuel) n rest h = elim (Bool-cases (ltb n 10)) [
  | inl small ↦ rw small (
      read-digit_char 0 true n (codes rest) (ltb→lt n 10 small)
      ∙ ap (λ a. read a false (codes rest)) (omega arith))
  | inr large ↦
      let big : 10 ≤ n = not-ltb→le n 10 large in
      rw large (
        read-show_onto fuel (n / 10) (String.◌∷◌ (digit_char (n % 10)) rest) (omega arith)
        ∙ read-digit_char (n / 10) false (n % 10) (codes rest) (omega arith)
        ∙ ap (λ a. read a false (codes rest)) (omega arith))
]

-- What `show_onto` writes begins with a digit.
show_onto_head :
    (fuel n : ℕ) (rest : String)
    → n < fuel
    → (d : ℕ) × (s : String) × (d < 10) × (show_onto fuel n rest ≡ String.◌∷◌ (digit_char d) s)
unfolding show_onto
show_onto_head zero n rest h = absurd (omega arith)
show_onto_head (suc fuel) n rest h = elim (Bool-cases (ltb n 10)) [
  | inl small ↦ (n, rest, ltb→lt n 10 small, rw small)
  | inr large ↦
      let big : 10 ≤ n = not-ltb→le n 10 large in
      let (d, s, lt, e) =
        show_onto_head fuel (n / 10) (String.◌∷◌ (digit_char (n % 10)) rest) (omega arith) in
      (d, s, lt, rw large e)
]

digit_not_space : (d : ℕ) → d < 10 → is_int_space (48 + d) ≡ false
unfolding is_int_space
digit_not_space d h = ground arith

-- A text that begins with a digit has no white space or sign to skip.
after_space_digit :
    (c d : ℕ) (cs : List ℕ)
    → d < 10
    → c ≡ 48 + d
    → after_space (skip_space (c ∷ cs)) ≡ signed pos (read 0 true (c ∷ cs))
unfolding after_space skip_space
after_space_digit c d cs h e =
    let plain : is_int_space c ≡ false = rw e (digit_not_space d h) in
    rw (plain, skip_space) (ground arith)

after_space_head :
    (d : ℕ) (s t : String)
    → d < 10
    → t ≡ String.◌∷◌ (digit_char d) s
    → after_space (skip_space (codes t)) ≡ signed pos (read 0 true (codes t))
after_space_head d s t h e =
    subst (λ t. after_space (skip_space (codes t)) ≡ signed pos (read 0 true (codes t))) (sym e)
      (after_space_digit (code (digit_char d)) d (codes s) h (digit_char-code d h))

read-show_nat : (n : ℕ) → read 0 true (codes (show_nat n)) ≡ some n
unfolding show_nat read
read-show_nat n = read-show_onto (n + 1) n String.[] (omega arith)

parse_int-show_nat : (n : ℕ) → parse_int (show_nat n) ≡ some (pos n)
unfolding parse_int show_nat
parse_int-show_nat n =
    let (d, s, small, e) = show_onto_head (n + 1) n String.[] (omega arith) in
    after_space_head d s (show_nat n) small e ∙ ap (signed pos) (read-show_nat n)

parse_int-minus : (n : ℕ) → parse_int (show_int (negsuc n)) ≡ some (negsuc n)
unfolding parse_int show_int after_space skip_space is_int_space
parse_int-minus n = ap (signed negate) (read-show_nat (n + 1)) ∙ ground arith

pub parse_int-show_int : (n : ℤ) → parse_int (show_int n) ≡ some n
unfolding show_int
parse_int-show_int (pos n) = parse_int-show_nat n
parse_int-show_int (negsuc n) = parse_int-minus n
