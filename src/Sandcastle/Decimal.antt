-- ===== src/Sandcastle/Decimal.antt =====
-- Issue numbers in branch names: what a template literal prints, the patterns accept.
use text.Mathlib.TextLemmas.{nil-append, cons-append}
use flash_trips.Prelude.{
  ℕ, zero, suc, ◌<◌, ◌≤◌, String, Bytes, Bool, true, [], ◌∷◌, ◌++◌, ◌≡◌, refl, all, codes, ltb,
  is_digit, show, show_from, ◌+++◌, arith, Bool-cases, inl, inr, ◌/◌, ◌%◌, digit_text,
}
use flash_trips.Sandcastle.Plan.{is_positive_number, after_prefix}

pub codes-append : (s t : String) → codes (s +++ t) ≡ codes s ++ codes t
codes-append String.[] t = rw nil-append
codes-append (String.◌∷◌ c s) t = rw cons-append (ground (arith, codes-append s t))

pub after_prefix-append :
    (test : Bytes → Bool) (xs ys : Bytes) → after_prefix xs test (xs ++ ys) ≡ test ys
unfolding after_prefix
after_prefix-append test [] ys = refl
after_prefix-append test (x ∷ xs) ys = ground (arith, after_prefix-append test xs ys)

all-append :
    (xs ys : Bytes)
    → all is_digit xs ≡ true
    → all is_digit ys ≡ true
    → all is_digit (xs ++ ys) ≡ true
all-append [] ys h k = k
all-append (x ∷ xs) ys h k = ground (arith, all-append xs ys)

is_positive_number-append :
    (xs ys : Bytes)
    → is_positive_number xs ≡ true
    → all is_digit ys ≡ true
    → is_positive_number (xs ++ ys) ≡ true
unfolding is_positive_number
is_positive_number-append [] ys h k = cc
is_positive_number-append (x ∷ xs) ys h k = ground (arith, all-append xs ys)

digit_text-digit : (n : ℕ) → all is_digit (codes (digit_text n)) ≡ true
digit_text-digit zero = refl
digit_text-digit (suc zero) = refl
digit_text-digit (suc (suc zero)) = refl
digit_text-digit (suc (suc (suc zero))) = refl
digit_text-digit (suc (suc (suc (suc zero)))) = refl
digit_text-digit (suc (suc (suc (suc (suc zero))))) = refl
digit_text-digit (suc (suc (suc (suc (suc (suc zero)))))) = refl
digit_text-digit (suc (suc (suc (suc (suc (suc (suc zero))))))) = refl
digit_text-digit (suc (suc (suc (suc (suc (suc (suc (suc zero)))))))) = refl
digit_text-digit _ = refl

digit_text-positive : (n : ℕ) → 0 < n → is_positive_number (codes (digit_text n)) ≡ true
unfolding is_positive_number
digit_text-positive zero h = absurd (omega arith)
digit_text-positive (suc zero) h = refl
digit_text-positive (suc (suc zero)) h = refl
digit_text-positive (suc (suc (suc zero))) h = refl
digit_text-positive (suc (suc (suc (suc zero)))) h = refl
digit_text-positive (suc (suc (suc (suc (suc zero))))) h = refl
digit_text-positive (suc (suc (suc (suc (suc (suc zero)))))) h = refl
digit_text-positive (suc (suc (suc (suc (suc (suc (suc zero))))))) h = refl
digit_text-positive (suc (suc (suc (suc (suc (suc (suc (suc zero)))))))) h = refl
digit_text-positive _ h = refl

show_from-positive :
    (fuel n : ℕ) → 0 < n → n < fuel → is_positive_number (codes (show_from fuel n)) ≡ true
unfolding show_from
show_from-positive zero n h k = absurd (omega arith)
show_from-positive (suc fuel) n h k = elim (Bool-cases (ltb n 10)) [
  | inl small ↦ rw small (digit_text-positive n h)
  | inr large ↦
      let big : 10 ≤ n = ground arith in
      rw (large, codes-append (show_from fuel (n / 10)) (digit_text (n % 10)))
        (is_positive_number-append (codes (show_from fuel (n / 10))) (codes (digit_text (n % 10)))
          (show_from-positive fuel (n / 10) (omega arith) (omega arith))
          (digit_text-digit (n % 10)))
]

-- A positive number prints as an issue identifier.
pub show-positive : (n : ℕ) → 0 < n → is_positive_number (codes (show n)) ≡ true
unfolding show
show-positive n h = show_from-positive (suc n) n h (omega arith)
