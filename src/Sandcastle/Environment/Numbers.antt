-- ===== src/Sandcastle/Environment/Numbers.antt =====
-- positiveIntegerSetting: its bounds, and the numbers that it reads.
use flash_trips.Prelude.{
  ℕ, zero, suc, ◌+◌, ◌*◌, ◌-◌, ◌/◌, ◌%◌, ◌≤◌, ◌<◌, String, Bytes, true, false, some, [], ◌∷◌, ◌++◌,
  ◌≡◌, refl, all, codes, is_digit, is_space, str_eq, eq_iff, trim, trim_start, trim_end, arith,
  Bool-cases, ltb, show, show_from, digit_text, ok, err, if◌then◌else◌, inl, inr, unless_blank,
  subst,
}
use Prim.Native.Char.{code}
use flash_trips.Sandcastle.Plan.{is_positive_number}
use flash_trips.Sandcastle.Decimal.{codes-append, show-positive}
use flash_trips.Sandcastle.Environment.{
  Settings, too_large, number_of, is_positive_decimal, max_safe_integer, trimmed,
  local_configuration, positive_integer_setting,
}

number_of-grows : (n : ℕ) (cs : Bytes) → n ≤ number_of n cs
unfolding number_of
number_of-grows n [] = omega arith
number_of-grows n (c ∷ cs) = omega (arith, number_of-grows (10 * n + (c - 48)) cs)

number_of-positive : (cs : Bytes) → is_positive_decimal cs ≡ true → 1 ≤ number_of 0 cs
unfolding number_of
number_of-positive [] h = cc
number_of-positive (c ∷ cs) h = ground (arith, number_of-grows (10 * 0 + (c - 48)) cs)

module _ (settings : Settings) where
  -- A setting that is accepted is at least 1 and at most its maximum, if its default is.
  pub positive_integer_setting-bounds :
      (name : String) (fallback maximum n : ℕ)
      → 1 ≤ fallback
      → fallback ≤ maximum
      → positive_integer_setting settings name fallback maximum ≡ ok n
      → (1 ≤ n) × (n ≤ maximum)
  unfolding positive_integer_setting
  positive_integer_setting-bounds name fallback maximum n low high h =
      ground (arith, h, number_of-positive (codes (trimmed (local_configuration settings name))))

number_of-append : (n : ℕ) (xs ys : Bytes) → number_of n (xs ++ ys) ≡ number_of (number_of n xs) ys
unfolding number_of
number_of-append n [] ys = refl
number_of-append n (x ∷ xs) ys = number_of-append (10 * n + (x - 48)) xs ys

number_of-digit_text : (n d : ℕ) → d < 10 → number_of n (codes (digit_text d)) ≡ 10 * n + d
unfolding number_of
number_of-digit_text n zero h = omega arith
number_of-digit_text n (suc zero) h = refl
number_of-digit_text n (suc (suc zero)) h = refl
number_of-digit_text n (suc (suc (suc zero))) h = refl
number_of-digit_text n (suc (suc (suc (suc zero)))) h = refl
number_of-digit_text n (suc (suc (suc (suc (suc zero))))) h = refl
number_of-digit_text n (suc (suc (suc (suc (suc (suc zero)))))) h = refl
number_of-digit_text n (suc (suc (suc (suc (suc (suc (suc zero))))))) h = refl
number_of-digit_text n (suc (suc (suc (suc (suc (suc (suc (suc zero)))))))) h = refl
number_of-digit_text n (suc (suc (suc (suc (suc (suc (suc (suc (suc zero))))))))) h = refl
number_of-digit_text n (suc (suc (suc (suc (suc (suc (suc (suc (suc (suc d)))))))))) h =
    absurd (omega arith)

number_of-show_from : (fuel n : ℕ) → n < fuel → number_of 0 (codes (show_from fuel n)) ≡ n
unfolding show_from
number_of-show_from zero n k = absurd (omega arith)
number_of-show_from (suc fuel) n k = elim (Bool-cases (ltb n 10)) [
  | inl small ↦ rw small (omega (arith, number_of-digit_text 0 n (ground arith)))
  | inr large ↦
      let big : 10 ≤ n = ground arith in
      rw
        (
          large,
          codes-append (show_from fuel (n / 10)) (digit_text (n % 10)),
          number_of-append 0 (codes (show_from fuel (n / 10))) (codes (digit_text (n % 10))),
          number_of-show_from fuel (n / 10) (omega arith),
          number_of-digit_text (n / 10) (n % 10) (omega arith),
        )
        (omega arith)
]

number_of-show : (n : ℕ) → number_of 0 (codes (show n)) ≡ n
unfolding show
number_of-show n = number_of-show_from (suc n) n (omega arith)

is_positive_decimal-codes :
    (cs : Bytes) → is_positive_number cs ≡ true → is_positive_decimal cs ≡ true
unfolding is_positive_number
is_positive_decimal-codes [] h = h
is_positive_decimal-codes (c ∷ cs) h = h

not_space : (c : ℕ) → is_digit c ≡ true → is_space c ≡ false
not_space c h = ground arith

trim_end-digits : (s : String) → all is_digit (codes s) ≡ true → trim_end s ≡ s
unfolding trim_end
trim_end-digits String.[] h = refl
trim_end-digits (String.◌∷◌ c s) h = rw (trim_end-digits s (ground (arith, h))) (keeps s)
  where
    keeps : (t : String) → unless_blank c t ≡ String.◌∷◌ c t
    keeps String.[] = ground (arith, h, not_space (code c))
    keeps (String.◌∷◌ d t) = refl

trim_start-digits : (s : String) → all is_digit (codes s) ≡ true → trim_start s ≡ s
unfolding trim_start
trim_start-digits String.[] h = refl
trim_start-digits (String.◌∷◌ c s) h = ground (arith, h, not_space (code c))

trim-digits : (s : String) → all is_digit (codes s) ≡ true → trim s ≡ s
unfolding trim
trim-digits s h = rw (trim_end-digits s h) (trim_start-digits s h)

digits : (cs : Bytes) → is_positive_number cs ≡ true → all is_digit cs ≡ true
unfolding is_positive_number
digits [] h = refl
digits (c ∷ cs) h = ground (arith, h)

blank : is_positive_number (codes "") ≡ true → ⊥
unfolding is_positive_number
blank h = ground (arith, h)

show-not_blank : (n : ℕ) → 0 < n → str_eq (show n) "" ≡ false
show-not_blank n h = elim (Bool-cases (str_eq (show n) "")) [
  | inr e ↦ e
  | inl e ↦ absurd (
      blank (
        subst (λ s. is_positive_number (codes s) ≡ true) ((eq_iff (show n) "").0 e)
          (show-positive n h)))
]

module _ (settings : Settings) where
  -- A positive number within the maximum is read back from its decimal digits, and one above the
  -- maximum is an error; the maximum itself is a number that the language represents exactly.
  pub positive_integer_setting-show :
      (name : String) (fallback maximum n : ℕ)
      → 1 ≤ n
      → maximum ≤ max_safe_integer
      → local_configuration settings name ≡ some (show n)
      → positive_integer_setting settings name fallback maximum
        ≡ (if ltb maximum n then err too_large else ok n)
  unfolding positive_integer_setting
  positive_integer_setting-show name fallback maximum n low safe configured =
      let positive = show-positive n (omega arith) in
      rw
        (
          configured,
          trim-digits (show n) (digits (codes (show n)) positive),
          show-not_blank n (omega arith),
          is_positive_decimal-codes (codes (show n)) positive,
          number_of-show n,
        )
        (ground arith)
