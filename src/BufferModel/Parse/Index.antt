-- ===== src/BufferModel/Parse/Index.antt =====
-- `parseUnsignedIndex` reads a decimal number and refuses what does not fit.
use coretrace_stack_analyzer.Prelude.{
  ℕ, ◌+◌, ◌-◌, ◌*◌, ◌≤◌, ◌≡◌, sym, ◌∙◌, Bool, true, ◌&&◌, Option, none, some, [], ◌∷◌, arith, leb,
  if◌then◌else◌,
}
use coretrace_stack_analyzer.Prelude.Text.{Text}
use coretrace_stack_analyzer.BufferModel.Parse.{
  unsigned_max, is_digit, index_loop, parse_unsigned_index,
}

abbrev pub all_digits : Text → Bool
all_digits [] = true
all_digits (c ∷ token) = is_digit c && all_digits token

-- The number that the digits are for, behind the digits of `value`.
abbrev pub decimal : ℕ → Text → ℕ
decimal value [] = value
decimal value (c ∷ token) = decimal (value * 10 + (c - b'0')) token

decimal-le : (value : ℕ) (token : Text) → value ≤ decimal value token
decimal-le value [] = omega arith
decimal-le value (c ∷ token) = omega (arith, decimal-le (value * 10 + (c - b'0')) token)

abbrev pub index_of : ℕ → Text → Option ℕ
index_of value token =
    if all_digits token && leb (decimal value token) unsigned_max
    then some (decimal value token)
    else none

index_loop_lem :
    (value : ℕ) (token : Text)
    → value ≤ unsigned_max
    → index_loop value token ≡ index_of value token
unfolding index_loop is_digit
index_loop_lem value [] h = ground arith
index_loop_lem value (c ∷ token) h = ground (
  arith,
  index_loop_lem (value * 10 + (c - b'0')) token,
  decimal-le (value * 10 + (c - b'0')) token,
)

-- A token that is not empty is read as its decimal value if all its bytes are digits and the value
-- fits into 32 bits, and is refused otherwise.
pub parse_unsigned_index_lem :
    (c : ℕ) (token : Text) → parse_unsigned_index (c ∷ token) ≡ index_of 0 (c ∷ token)
unfolding parse_unsigned_index
parse_unsigned_index_lem c token = index_loop_lem 0 (c ∷ token) (omega arith)

pub parse_unsigned_index_bounded :
    (token : Text) (n : ℕ) → parse_unsigned_index token ≡ some n → n ≤ unsigned_max
unfolding parse_unsigned_index
parse_unsigned_index_bounded [] n h = absurd (cc)
parse_unsigned_index_bounded (c ∷ token) n h =
    let e = sym (parse_unsigned_index_lem c token) ∙ (unfold parse_unsigned_index in h) in
    ground arith
