-- ===== src/Domain/Sensitive/Luhn.antt =====
-- The check digit: what `luhnValid` computes, and the errors that it catches.
use recon_sync.Common.{
  All-append, ◌<◌, ℕ, ◌+◌, ◌%◌, ◌≤◌, Bool, true, false, not, ◌≡◌, ◌≢◌, List, [], ◌∷◌, ◌++◌, All,
  length, arith, ◌==◌,
}
use mathlib.Core.List.{append-nil, append_assoc}
use recon_sync.Domain.Sensitive.Scan.{luhn_value, luhn_loop, backwards, luhn_valid}

abbrev pub IsDigit : ℕ → Type 0
IsDigit c = (48 ≤ c) × (c ≤ 57)

-- The sum of the values, from the last digit to the first.
luhn_sum : Bool → List ℕ → ℕ
luhn_sum double [] = 0
luhn_sum double (c ∷ cs) = luhn_value double c + luhn_sum (not double) cs

-- Whether the digit before all of these is doubled.
parity : Bool → List ℕ → Bool
parity double [] = double
parity double (c ∷ cs) = parity (not double) cs

luhn_loop-sum :
    (n : ℕ) (double : Bool) (cs : List ℕ)
    → All IsDigit cs
    → luhn_loop n double cs ≡ ((n + luhn_sum double cs) % 10 == 0)
unfolding luhn_loop luhn_sum
luhn_loop-sum n double [] h = ground arith
luhn_loop-sum n double (c ∷ cs) h =
    ground (arith, luhn_loop-sum (n + luhn_value double c) (not double) cs h.1)

luhn_sum-append :
    (double : Bool) (xs ys : List ℕ)
    → luhn_sum double (xs ++ ys) ≡ luhn_sum double xs + luhn_sum (parity double xs) ys
unfolding luhn_sum parity
luhn_sum-append double [] ys = omega arith
luhn_sum-append double (x ∷ xs) ys = omega (arith, luhn_sum-append (not double) xs ys)

luhn_value-injective :
    (double : Bool) (a b k : ℕ)
    → IsDigit a
    → IsDigit b
    → (k + luhn_value double a) % 10 ≡ (k + luhn_value double b) % 10
    → a ≡ b
unfolding luhn_value
luhn_value-injective true a b k h g e = ground arith
luhn_value-injective false a b k h g e = ground arith

All-backwards : (cs : List ℕ) → All IsDigit cs → All IsDigit (backwards cs)
unfolding backwards
All-backwards [] h = tt
All-backwards (c ∷ cs) h =
    All-append IsDigit (backwards cs) (c ∷ []) (All-backwards cs h.1) (h.0, tt)

backwards-append : (xs ys : List ℕ) → backwards (xs ++ ys) ≡ backwards ys ++ backwards xs
unfolding backwards
backwards-append [] ys = rw append-nil
backwards-append (x ∷ xs) ys = simp (backwards-append xs ys, append_assoc)

backwards-split :
    (xs : List ℕ) (a : ℕ) (ys : List ℕ)
    → backwards (xs ++ a ∷ ys) ≡ backwards ys ++ a ∷ backwards xs
unfolding backwards
backwards-split xs a ys = simp (backwards-append xs (a ∷ ys), append_assoc)

length-split : (xs : List ℕ) (a : ℕ) (ys : List ℕ) → 0 < length (xs ++ a ∷ ys)
length-split [] a ys = omega arith
length-split (x ∷ xs) a ys = omega arith

-- The value that has to be 0 modulo 10, split at one digit.
module _ (xs ys : List ℕ) (hx : All IsDigit xs) (hy : All IsDigit ys) where
  rest_sum : ℕ
  rest_sum =
      luhn_sum false (backwards ys) + luhn_sum (not (parity false (backwards ys))) (backwards xs)

  luhn_valid-split :
      (a : ℕ)
      → IsDigit a
      → luhn_valid (xs ++ a ∷ ys)
        ≡ ((rest_sum + luhn_value (parity false (backwards ys)) a) % 10 == 0)
  unfolding luhn_valid rest_sum luhn_sum
  luhn_valid-split a h =
      let digits : All IsDigit (backwards ys ++ a ∷ backwards xs) =
        All-append IsDigit (backwards ys) (a ∷ backwards xs) (All-backwards ys hy)
          (h, All-backwards xs hx) in
      ground (
        arith,
        backwards-split xs a ys,
        length-split xs a ys,
        luhn_loop-sum 0 false (backwards ys ++ a ∷ backwards xs) digits,
        luhn_sum-append false (backwards ys) (a ∷ backwards xs),
      )

  -- If a string of digits passes the check, the string with one digit changed to another fails it.
  pub luhn_valid-substitution :
      (a b : ℕ)
      → IsDigit a
      → IsDigit b
      → a ≢ b
      → luhn_valid (xs ++ a ∷ ys) ≡ true
      → luhn_valid (xs ++ b ∷ ys) ≡ false
  luhn_valid-substitution a b ha hb ne ok = ground (
    arith,
    luhn_valid-split a ha,
    luhn_valid-split b hb,
    luhn_value-injective (parity false (backwards ys)) a b rest_sum ha hb,
  )
