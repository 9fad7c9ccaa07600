-- ===== src/Replication/Sql/Reading/Numbers.antt =====
-- Numbers as `fmt` writes them are read back, and so are the placeholders of a statement.
use mathlib.Core.List.{append_assoc}
use cloud_comp_project.Base.{
  expect, expect-append, ℕ, zero, suc, ◌+◌, ◌-◌, ◌*◌, ◌/◌, ◌%◌, ◌<◌, ◌≡◌, refl, ap, ◌∙◌, true,
  false, ◌==◌, Option, none, some, List, [], ◌∷◌, ◌++◌, Text, codes, decimal, digits_from, length,
  arith, if◌then◌else◌, Bool-cases, inl, inr, ==_iff,
}
use cloud_comp_project.Interfaces.{Value}
use cloud_comp_project.Replication.Sql.{placeholder}
use cloud_comp_project.Replication.Sql.Reading.{Reader, Reads, is_digit, goes_on}

-- A number that goes on with the text, and the rest.
pub number : ℕ → Text → ℕ × Text
number n [] = (n, [])
number n (c ∷ s) = if is_digit c then number (n * 10 + (c - 48)) s else (n, c ∷ s)

number_ends : (n : ℕ) (rest : Text) → goes_on rest ≡ false → number n rest ≡ (n, rest)
unfolding number
number_ends n [] h = refl
number_ends n (c ∷ s) h = ground arith

next_digit : (n d : ℕ) (s : Text) → d < 10 → number n ((48 + d) ∷ s) ≡ number (n * 10 + d) s
unfolding number
next_digit n d s h =
    let digit : is_digit (48 + d) ≡ true = ground arith in
    rw digit (ap (λ m. number m s) (omega arith))

digits_read :
    (fuel n : ℕ) (out rest : Text)
    → n < fuel
    → number 0 (digits_from fuel n out ++ rest) ≡ number n (out ++ rest)
unfolding digits_from
digits_read zero n out rest h = absurd (omega arith)
digits_read (suc fuel) n out rest h = elim (Bool-cases (n / 10 == 0)) [
  | inl last ↦
      let small : n % 10 < 10 = omega arith in
      let whole : 0 * 10 + n % 10 ≡ n = omega (arith, (==_iff (n / 10) 0).0 last) in
      rw last (next_digit 0 (n % 10) (out ++ rest) small ∙ ap (λ m. number m (out ++ rest)) whole)
  | inr more ↦
      let small : n % 10 < 10 = omega arith in
      let whole : n / 10 * 10 + n % 10 ≡ n = omega arith in
      let shorter : n / 10 < fuel = ground arith in
      rw more (digits_read fuel (n / 10) ((48 + n % 10) ∷ out) rest shorter)
      ∙ next_digit (n / 10) (n % 10) (out ++ rest) small
      ∙ ap (λ m. number m (out ++ rest)) whole
]

pub decimal_read :
    (n : ℕ) (rest : Text) → goes_on rest ≡ false → number 0 (decimal n ++ rest) ≡ (n, rest)
unfolding decimal
decimal_read n rest h = digits_read (n + 1) n [] rest (omega arith) ∙ number_ends n rest h

-- the value with the number, from 1
abbrev pub value_at : List Value → ℕ → Option Value
value_at [] n = none
value_at (v ∷ vs) zero = none
value_at (v ∷ vs) (suc zero) = some v
value_at (v ∷ vs) (suc (suc n)) = value_at vs (suc n)

pub value_at_lem :
    (before after : List Value) (v : Value)
    → value_at (before ++ (v ∷ after)) (suc (length before)) ≡ some v
value_at_lem [] after v = refl
value_at_lem (u ∷ before) after v = value_at_lem before after v

abbrev with_rest : Option Value → Text → Option (Value × Text)
with_rest none rest = none
with_rest (some v) rest = some (v, rest)

abbrev numbered : List Value → Option Text → Option (Value × Text)
numbered args none = none
numbered args (some s) = with_rest (value_at args (number 0 s).0) (number 0 s).1

-- A placeholder, read as its value.
pub read_parameter : List Value → Reader Value
unfolding codes
read_parameter args s = numbered args (expect (codes "$") s)

pub placeholder-Reads :
    (before after : List Value) (v : Value)
    → Reads (read_parameter (before ++ (v ∷ after))) (placeholder (suc (length before))) v
unfolding read_parameter placeholder codes
placeholder-Reads before after v rest h =
    let n = suc (length before) in
    let args = before ++ (v ∷ after) in
    ap (numbered args) (
      ap (expect (codes "$")) (append_assoc (codes "$") (decimal n) rest)
      ∙ expect-append (codes "$") (decimal n ++ rest))
    ∙ ap (λ (r : ℕ × Text). with_rest (value_at args r.0) r.1) (decimal_read n rest h)
    ∙ ap (λ o. with_rest o rest) (value_at_lem before after v)
