-- ===== src/Domain/Sensitive/Cards.antt =====
-- Formatting does not hide a card number from `ContainsCardNumber`.
use recon_sync.Common.{
  ℕ, ◌≤◌, true, false, ◌≡◌, List, [], ◌∷◌, ◌++◌, length, arith, ◌==◌, Text, length-append,
  take_of_length-le,
}
use mathlib.Core.List.{append_assoc}
use recon_sync.Domain.Sensitive.Scan.{
  is_digit, is_separator, starts_with_digit, scan, run_is_pan, contains_card_number,
}

-- The text is the digits, with at most one space or hyphen between two of them.
pub data Spaced : List ℕ → Text → Type 0 where
  last : {d : ℕ} → is_digit d ≡ true → Spaced (d ∷ []) (d ∷ [])
  next :
      {d : ℕ} {ds : List ℕ} {s : Text} → is_digit d ≡ true → Spaced ds s → Spaced (d ∷ ds) (d ∷ s)
  gap :
      {d c : ℕ} {ds : List ℕ} {s : Text}
      → is_digit d ≡ true
      → is_separator c ≡ true
      → Spaced ds s
      → Spaced (d ∷ ds) (d ∷ c ∷ s)

-- A character that ends a run: no digit, no space, no hyphen.
abbrev pub IsBreak : ℕ → Type 0
IsBreak c = (is_digit c ≡ false) × (is_separator c ≡ false)

-- What may stand behind the number.
abbrev pub Stops : Text → Type 0
Stops [] = Unit
Stops (c ∷ s) = IsBreak c

scan-stop : (run : List ℕ) (s : Text) → Stops s → run_is_pan run ≡ true → scan run s ≡ true
unfolding scan
scan-stop run [] h p = p
scan-stop run (c ∷ s) h p = ground arith

starts-Spaced :
    {ds : List ℕ} {s : Text} (post : Text) → Spaced ds s → starts_with_digit (s ++ post) ≡ true
starts-Spaced post (last h) = h
starts-Spaced post (next h r) = h
starts-Spaced post (gap h k r) = h

separator-digit : (c : ℕ) → is_separator c ≡ true → is_digit c ≡ false
separator-digit c h = ground arith

length-snoc : (run : List ℕ) (d : ℕ) → (length (run ++ d ∷ []) == 0) ≡ false
length-snoc run d = ground (arith, length-append run (d ∷ []))

scan-digit :
    (run : List ℕ) (d : ℕ) (s : Text)
    → is_digit d ≡ true
    → scan run (d ∷ s) ≡ scan (run ++ d ∷ []) s
unfolding scan
scan-digit run d s h = rw h

scan-gap :
    (run : List ℕ) (c : ℕ) (s : Text)
    → is_separator c ≡ true
    → (length run == 0) ≡ false
    → starts_with_digit s ≡ true
    → scan run (c ∷ s) ≡ scan run s
unfolding scan
scan-gap run c s h n d = rw (separator-digit c h, h, n, d)

scan-Spaced :
    {ds : List ℕ} {s : Text} (run : List ℕ) (post : Text)
    → Spaced ds s
    → Stops post
    → run_is_pan (run ++ ds) ≡ true
    → scan run (s ++ post) ≡ true
scan-Spaced run post (last {d = d} h) b p =
    rw (scan-digit run d post h) (scan-stop (run ++ d ∷ []) post b p)
scan-Spaced run post (next {d = d} {ds = ds} {s = s} h r) b p =
    rw (scan-digit run d (s ++ post) h) (scan-Spaced (run ++ d ∷ []) post r b (rw append_assoc p))
scan-Spaced run post (gap {d = d} {c = c} {ds = ds} {s = s} h k r) b p =
    rw
      (
        scan-digit run d (c ∷ (s ++ post)) h,
        scan-gap (run ++ d ∷ []) c (s ++ post) k (length-snoc run d) (starts-Spaced post r),
      )
      (scan-Spaced (run ++ d ∷ []) post r b (rw append_assoc p))

-- A find behind a character that ends a run is a find in the whole text.
scan-prefix :
    (run : List ℕ) (pre : Text) (c : ℕ) (s : Text)
    → IsBreak c
    → scan [] s ≡ true
    → scan run (pre ++ c ∷ s) ≡ true
unfolding scan
scan-prefix run [] c s h p = ground arith
scan-prefix run (x ∷ pre) c s h p = ground (
  arith,
  scan-prefix (run ++ x ∷ []) pre c s h p,
  scan-prefix run pre c s h p,
  scan-prefix [] pre c s h p,
)

-- A text of at most 4096 bytes that holds a card number, its digits written with at most one space
-- or hyphen between two of them, at the start or behind a character that is no digit, space or
-- hyphen, and at the end or before such a character, is found to contain a card number.
pub contains_card_number-Spaced :
    (pre : Text) (c : ℕ) {ds : List ℕ} {s : Text} (post : Text)
    → Spaced ds s
    → run_is_pan ds ≡ true
    → IsBreak c
    → Stops post
    → length (pre ++ c ∷ (s ++ post)) ≤ 4096
    → (contains_card_number (pre ++ c ∷ (s ++ post)) ≡ true)
      × (contains_card_number (s ++ post) ≡ true)
unfolding contains_card_number
contains_card_number-Spaced pre c {s = s} post r p b h l =
    let found = scan-Spaced [] post r h p in
    let tail : length (s ++ post) ≤ 4096 = omega (arith, length-append pre (c ∷ (s ++ post))) in
    (
      rw (take_of_length-le 4096 (pre ++ c ∷ (s ++ post)) l)
          (scan-prefix [] pre c (s ++ post) b found),
      rw (take_of_length-le 4096 (s ++ post) tail) found,
    )
