-- ===== src/Domain/Sensitive/Scan.antt =====
-- internal/domain/sensitive.go: card numbers in a text, the denylist, the walk over metadata.
use recon_sync.Common.{
  ℕ, suc, zero, ◌+◌, ◌-◌, ◌*◌, ◌/◌, ◌%◌, Bool, true, false, ◌&&◌, ◌||◌, not, Option, none, some,
  List, [], ◌∷◌, ◌++◌, Text, ascii, length, take, ltb, leb, ◌==◌, if◌then◌else◌, contains, text_eq,
  map,
}
use recon_sync.Domain.Errors.{Error, sensitive}
use recon_sync.Domain.Transaction.{
  Value, Fields, Items, object, array, text, scalar, end, field, nil, cons,
}

abbrev pub min_pan_len : ℕ
min_pan_len = 13

abbrev pub max_pan_len : ℕ
max_pan_len = 19

abbrev pub max_scan_len : ℕ
max_scan_len = 4096

abbrev pub max_scan_depth : ℕ
max_scan_depth = 8

abbrev pub is_digit : ℕ → Bool
is_digit c = leb b'0' c && leb c b'9'

-- A space or a hyphen.
abbrev pub is_separator : ℕ → Bool
is_separator c = c == 32 || c == b'-'

-- What a digit adds to the sum; every second one is doubled.
unfoldable pub luhn_value : Bool → ℕ → ℕ
luhn_value double c =
    let d = c - b'0' in if double then (if ltb 9 (d * 2) then d * 2 - 9 else d * 2) else d

-- The loop of `luhnValid`, over the digits from the last to the first.
unfoldable pub luhn_loop : ℕ → Bool → List ℕ → Bool
unfolding luhn_value
luhn_loop sum double [] = sum % 10 == 0
luhn_loop sum double (c ∷ cs) =
    let rest = luhn_loop (sum + luhn_value double c) (not double) cs in
    if is_digit c then rest else false

-- The digits from the last to the first.
unfoldable pub backwards : List ℕ → List ℕ
backwards [] = []
backwards (c ∷ cs) = backwards cs ++ c ∷ []

unfoldable pub luhn_valid : List ℕ → Bool
unfolding luhn_loop backwards
luhn_valid digits = if length digits == 0 then false else luhn_loop 0 false (backwards digits)

unfoldable pub run_is_pan : List ℕ → Bool
run_is_pan run =
    if ltb (length run) min_pan_len || ltb max_pan_len (length run) then false else luhn_valid run

-- `i+1 < len(s) && s[i+1] >= '0' && s[i+1] <= '9'` at the rest of the text.
abbrev pub starts_with_digit : Text → Bool
starts_with_digit [] = false
starts_with_digit (c ∷ s) = is_digit c

-- The loop of `ContainsCardNumber`: a flush tests the run, and empties it.
unfoldable pub scan : List ℕ → Text → Bool
scan run [] = run_is_pan run
scan run (c ∷ s) =
    let longer = scan (run ++ c ∷ []) s in
    let same = scan run s in
    let flushed = scan [] s in
    if is_digit c
    then longer
    else if (is_separator c && not (length run == 0)) && starts_with_digit s
    then same
    else if run_is_pan run
    then true
    else flushed

unfoldable pub contains_card_number : Text → Bool
contains_card_number s = scan [] (take max_scan_len s)

unfoldable pub screen_string : Text → Text → Option Error
screen_string f v =
    if contains_card_number v
    then some (
        sensitive (record { path = f; reason = "value contains what appears to be a card number" }))
    else none

unfoldable pub denylisted_fields : List Text
denylisted_fields = map ascii (
    "pan" ∷ "cardnumber" ∷ "card" ∷ "cardno" ∷ "accountnumber" ∷ "cvv" ∷ "cvv2" ∷ "cvc" ∷ "csc"
    ∷ "securitycode" ∷ "expiry" ∷ "expirydate" ∷ "expmonth" ∷ "expyear" ∷ "password" ∷ "passwd"
    ∷ "pin" ∷ "otp" ∷ "bvn" ∷ "nin" ∷ "ssn" ∷ "dateofbirth" ∷ "dob" ∷ "secret" ∷ "token"
    ∷ "accesstoken" ∷ "refreshtoken" ∷ "authorization" ∷ "apikey" ∷ "privatekey" ∷ "mothersmaiden"
    ∷ "trackdata" ∷ "magstripe" ∷ "cardholdername" ∷ [])

-- No byte of a rune outside ASCII is a letter or a digit, so the loop over runes drops them all.
unfoldable pub normalise_key : Text → Text
normalise_key [] = []
normalise_key (r ∷ k) =
    let rest = normalise_key k in
    if leb b'A' r && leb r b'Z'
    then (r + (b'a' - b'A')) ∷ rest
    else if (leb b'a' r && leb r b'z') || (leb b'0' r && leb r b'9')
    then r ∷ rest
    else rest

-- `%d` of a number that is not negative.
unfoldable pub decimal_loop : ℕ → ℕ → Text → Text
decimal_loop zero n acc = acc
decimal_loop (suc f) n acc =
    let digits = (b'0' + n % 10) ∷ acc in
    let more = decimal_loop f (n / 10) digits in if ltb n 10 then digits else more

unfoldable pub decimal : ℕ → Text
unfolding decimal_loop
decimal n = decimal_loop (suc n) n []

abbrev pub is_denylisted : Text → Bool
is_denylisted k = contains denylisted_fields (normalise_key k)

abbrev too_deep : Text → Option Error
too_deep p = some (sensitive (record { path = p; reason = "nested more than 8 levels deep" }))

abbrev then_screen : Option Error → Option Error → Option Error
then_screen none rest = rest
then_screen (some e) rest = some e

unfoldable mutual
  pub screen_value : Text → Value → ℕ → Option Error
  screen_value p (object fs) d = if ltb max_scan_depth d then too_deep p else screen_fields p fs d
  screen_value p (array xs) d = if ltb max_scan_depth d then too_deep p else screen_items p 0 xs d
  screen_value p (text s) d = if ltb max_scan_depth d then too_deep p else screen_string p s
  screen_value p (scalar n) d = if ltb max_scan_depth d then too_deep p else none

  pub screen_fields : Text → Fields → ℕ → Option Error
  screen_fields p end d = none
  screen_fields p (field k v fs) d =
      if is_denylisted k
      then some (
          sensitive (record {
            path = p ++ ascii "." ++ k;
            reason = "field name is on the never-collect list";
          }))
      else then_screen (screen_value (p ++ ascii "." ++ k) v (d + 1)) (screen_fields p fs d)

  pub screen_items : Text → ℕ → Items → ℕ → Option Error
  screen_items p i nil d = none
  screen_items p i (cons v xs) d =
      then_screen (screen_value (p ++ ascii "[" ++ decimal i ++ ascii "]") v (d + 1))
        (screen_items p (i + 1) xs d)

unfoldable pub screen_metadata : Fields → Option Error
screen_metadata m = screen_value (ascii "metadata") (object m) 0
