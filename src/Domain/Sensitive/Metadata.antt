-- ===== src/Domain/Sensitive/Metadata.antt =====
-- What metadata that passes the screen holds, at any depth.
use recon_sync.Common.{
  ℕ, suc, ◌+◌, ◌≤◌, Bool, true, ◌≡◌, ◌↔◌, none, List, [], ◌∷◌, ◌++◌, Text, arith, ascii, every,
  every-append, not, ◌&&◌,
}
use Prim.Native.Nat.{max}
use recon_sync.Domain.Transaction.{
  Value, Fields, Items, object, array, text, scalar, end, field, nil, cons,
}
use recon_sync.Domain.Sensitive.Scan.{
  contains_card_number, screen_string, is_denylisted, screen_value, screen_fields, screen_items,
  screen_metadata, decimal,
}

-- Every key at any depth.
abbrev mutual
  pub keys : Value → List Text
  keys (object fs) = keys_fields fs
  keys (array xs) = keys_items xs
  keys (text s) = []
  keys (scalar n) = []

  pub keys_fields : Fields → List Text
  keys_fields end = []
  keys_fields (field k v fs) = k ∷ (keys v ++ keys_fields fs)

  pub keys_items : Items → List Text
  keys_items nil = []
  keys_items (cons v xs) = keys v ++ keys_items xs

-- Every text at any depth.
abbrev mutual
  pub texts : Value → List Text
  texts (object fs) = texts_fields fs
  texts (array xs) = texts_items xs
  texts (text s) = s ∷ []
  texts (scalar n) = []

  pub texts_fields : Fields → List Text
  texts_fields end = []
  texts_fields (field k v fs) = texts v ++ texts_fields fs

  pub texts_items : Items → List Text
  texts_items nil = []
  texts_items (cons v xs) = texts v ++ texts_items xs

-- How deep the nesting goes.
abbrev mutual
  pub height : Value → ℕ
  height (object fs) = height_fields fs
  height (array xs) = height_items xs
  height (text s) = 0
  height (scalar n) = 0

  pub height_fields : Fields → ℕ
  height_fields end = 0
  height_fields (field k v fs) = max (suc (height v)) (height_fields fs)

  pub height_items : Items → ℕ
  height_items nil = 0
  height_items (cons v xs) = max (suc (height v)) (height_items xs)

abbrev pub is_clean_key : Text → Bool
is_clean_key k = not (is_denylisted k)

abbrev pub is_clean_text : Text → Bool
is_clean_text s = not (contains_card_number s)

ok_keys-append :
    (xs ys : List Text)
    → every is_clean_key (xs ++ ys) ≡ (every is_clean_key xs && every is_clean_key ys)
ok_keys-append = every-append is_clean_key

ok_texts-append :
    (xs ys : List Text)
    → every is_clean_text (xs ++ ys) ≡ (every is_clean_text xs && every is_clean_text ys)
ok_texts-append = every-append is_clean_text

mutual
  unfolding screen_value screen_string

  value_iff :
      (p : Text) (v : Value) (d : ℕ)
      → (screen_value p v d ≡ none) ↔ (
          (d + height v ≤ 8)
          × (every is_clean_key (keys v) ≡ true)
          × (every is_clean_text (texts v) ≡ true))
  value_iff p (object fs) d = ground (arith, fields_iff p fs d)
  value_iff p (array xs) d = ground (arith, items_iff p 0 xs d)
  value_iff p (text s) d = ground arith
  value_iff p (scalar n) d = ground arith

  fields_iff :
      (p : Text) (fs : Fields) (d : ℕ)
      → d ≤ 8
      → (screen_fields p fs d ≡ none) ↔ (
          (d + height_fields fs ≤ 8)
          × (every is_clean_key (keys_fields fs) ≡ true)
          × (every is_clean_text (texts_fields fs) ≡ true))
  fields_iff p end d h = ground arith
  fields_iff p (field k v fs) d h = ground (
    arith,
    value_iff (p ++ ascii "." ++ k) v (d + 1),
    fields_iff p fs d h,
    ok_keys-append (keys v) (keys_fields fs),
    ok_texts-append (texts v) (texts_fields fs),
  )

  items_iff :
      (p : Text) (i : ℕ) (xs : Items) (d : ℕ)
      → d ≤ 8
      → (screen_items p i xs d ≡ none) ↔ (
          (d + height_items xs ≤ 8)
          × (every is_clean_key (keys_items xs) ≡ true)
          × (every is_clean_text (texts_items xs) ≡ true))
  items_iff p i nil d h = ground arith
  items_iff p i (cons v xs) d h = ground (
    arith,
    value_iff (p ++ ascii "[" ++ decimal i ++ ascii "]") v (d + 1),
    items_iff p (i + 1) xs d h,
    ok_keys-append (keys v) (keys_items xs),
    ok_texts-append (texts v) (texts_items xs),
  )

-- Metadata passes the screen exactly if it is nested at most 8 levels deep, no key at any depth
-- is on the denylist once normalised, and no text at any depth contains a card number.
pub screen_metadata_iff :
    (m : Fields)
    → (screen_metadata m ≡ none) ↔ (
        (height_fields m ≤ 8)
        × (every is_clean_key (keys_fields m) ≡ true)
        × (every is_clean_text (texts_fields m) ≡ true))
unfolding screen_metadata
screen_metadata_iff m = ground (arith, value_iff (ascii "metadata") (object m) 0)
