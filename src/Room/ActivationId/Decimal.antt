-- ===== src/Room/ActivationId/Decimal.antt =====
-- The decimal text of a number, as packages/ambion/src/activation-id.ts writes it into an id and
-- reads it back.
use ambion.Common.{
  All, Bool-cases, Text, [], ap, arith, false, inl, inr, leb, ltb, ltb→lt, refl, some, suc, sym,
  true, zero, ℕ, ◌%◌, ◌*◌, ◌+◌, ◌/◌, ◌<◌, ◌==◌, ◌∙◌, ◌∷◌, ◌≡◌, ◌≤◌,
}
use ambion.Room.ActivationId.{
  colon, decimal, digits, is_digit, max_safe_integer, positive_integer, safe_positive_integer, scan,
}

scan_digit : (k d : ℕ) (out : Text) → d < 10 → scan k ((48 + d) ∷ out) ≡ scan (k * 10 + d) out
unfolding scan
scan_digit k d out h =
    let digit : is_digit (48 + d) ≡ true = ground arith in
    rw digit (ap (λ m. scan m out) (omega arith))

-- Reading the digits of a number gives the number, whatever stands behind them.
scan-digits : (rounds n : ℕ) (out : Text) → n < rounds → scan 0 (digits rounds n out) ≡ scan n out
unfolding digits
scan-digits zero n out h = absurd (omega (arith, h))
scan-digits (suc rounds) n out h = elim (Bool-cases (ltb n 10)) [
  | inl small ↦
      rw small (scan_digit 0 n out (ltb→lt n 10 small) ∙ ap (λ k. scan k out) (omega arith))
  | inr large ↦
      let many : 10 ≤ n = ground arith in
      rw large (
        scan-digits rounds (n / 10) ((48 + n % 10) ∷ out) (omega (arith, h, many))
        ∙ scan_digit (n / 10) (n % 10) out (omega arith)
        ∙ ap (λ k. scan k out) (omega arith))
]

-- The first digit of a positive number is not 0, and no digit is a colon.
digits-first :
    (rounds n : ℕ) (out : Text)
    → n < rounds
    → 1 ≤ n
    → (c : ℕ) × (s : Text) × (digits rounds n out ≡ c ∷ s) × ((c == 48) ≡ false)
unfolding digits
digits-first zero n out h k = absurd (omega (arith, h))
digits-first (suc rounds) n out h k = elim (Bool-cases (ltb n 10)) [
  | inl small ↦ (48 + n, out, rw small refl, ground arith)
  | inr large ↦
      let many : 10 ≤ n = ground arith in
      let (c, s, e, first) =
        digits-first rounds (n / 10) ((48 + n % 10) ∷ out) (omega (arith, h, many))
          (omega (arith, many)) in
      (c, s, rw large e, first)
]

abbrev pub NoColon : Text → Type 0
NoColon = All (λ c. (c == colon) ≡ false)

digits-NoColon : (rounds n : ℕ) (out : Text) → NoColon out → NoColon (digits rounds n out)
unfolding digits
digits-NoColon zero n out h = h
digits-NoColon (suc rounds) n out h = elim (Bool-cases (ltb n 10)) [
  | inl small ↦ rw small (ground arith, h)
  | inr large ↦ rw large (digits-NoColon rounds (n / 10) ((48 + n % 10) ∷ out) (ground arith, h))
]

pub decimal-NoColon : (n : ℕ) → NoColon (decimal n)
unfolding decimal
decimal-NoColon n = digits-NoColon (suc n) n [] tt

-- Each positive safe integer is read back from its decimal text.
pub positive_integer-decimal :
    (n : ℕ) → safe_positive_integer n ≡ true → positive_integer (decimal n) ≡ some n
unfolding decimal safe_positive_integer
positive_integer-decimal n safe =
    let low : 1 ≤ n = ground arith in
    let high : leb n max_safe_integer ≡ true = ground arith in
    let (c, s, e, first) = digits-first (suc n) n [] (omega arith) low in
    let reads : scan 0 (c ∷ s) ≡ some n =
      ap (scan 0) (sym e) ∙ scan-digits (suc n) n [] (omega arith) ∙ unfold scan in refl in
    rw e (unfold positive_integer in rw (first, reads, high) refl)
