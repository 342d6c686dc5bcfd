-- ===== src/Text/Decimal.antt =====
-- `QString::number` for a number that is not negative, and reading its digits back.
use qt_sss_shttps.Common.{
  ℕ, zero, suc, ◌+◌, ◌-◌, ◌*◌, ◌/◌, ◌%◌, ◌<◌, ◌≡◌, ap, ◌∙◌, [], ◌∷◌, arith, ltb, if◌then◌else◌,
  Bool-cases, inl, inr,
}
use qt_sss_shttps.Text.{Text, IsAscii}

-- The digits of a number in front of a text; the fuel is more than the number of digits.
decimal_from : ℕ → ℕ → Text → Text
decimal_from zero n acc = acc
decimal_from (suc fuel) n acc =
    let digit = b'0' + n % 10 in
    let more = decimal_from fuel (n / 10) (digit ∷ acc) in if ltb n 10 then digit ∷ acc else more

unfoldable pub decimal : ℕ → Text
unfolding decimal_from
decimal n = decimal_from (suc n) n []

-- The number that a text of digits stands for, read from the left.
unfoldable pub read_digits : ℕ → Text → ℕ
read_digits acc [] = acc
read_digits acc (c ∷ t) = read_digits (acc * 10 + (c - b'0')) t

read_digits-decimal_from :
    (fuel n : ℕ) (acc : Text)
    → n < fuel
    → read_digits 0 (decimal_from fuel n acc) ≡ read_digits n acc
unfolding decimal_from
read_digits-decimal_from zero n acc h = elim h [ ]
read_digits-decimal_from (suc fuel) n acc h = elim (Bool-cases (ltb n 10)) [
  | inl e ↦ rw e (unfold read_digits in ap (λ k. read_digits k acc) (ground arith))
  | inr e ↦ rw e (
      read_digits-decimal_from fuel (n / 10) ((b'0' + n % 10) ∷ acc) (ground arith)
      ∙ unfold read_digits in ap (λ k. read_digits k acc) (omega arith))
]

-- The digits of a number are read back as that number.
pub read_digits-decimal : (n : ℕ) → read_digits 0 (decimal n) ≡ n
unfolding decimal read_digits
read_digits-decimal n = read_digits-decimal_from (suc n) n [] (omega arith)

decimal_from-IsAscii : (fuel n : ℕ) (acc : Text) → IsAscii acc → IsAscii (decimal_from fuel n acc)
unfolding decimal_from
decimal_from-IsAscii zero n acc h = h
decimal_from-IsAscii (suc fuel) n acc h = elim (Bool-cases (ltb n 10)) [
  | inl e ↦ rw e (omega arith, h)
  | inr e ↦ rw e (decimal_from-IsAscii fuel (n / 10) _ (omega arith, h))
]

pub decimal-IsAscii : (n : ℕ) → IsAscii (decimal n)
unfolding decimal
decimal-IsAscii n = decimal_from-IsAscii (suc n) n [] tt
