-- ===== src/Provider/Settlement/Files.antt =====
-- What is true of every settlement file that was parsed.
use recon_sync.Common.{
  ℕ, ◌≤◌, ◌<◌, ◌≡◌, ◌⊎◌, refl, sym, inl, inr, ◌∙◌, ap, subst, some, List, [], ◌∷◌, Text, Dict,
  lookup, insert, length, Bool-cases, Option-cases, text_eq, lookup-insert, ◌=?◌, ◌==◌, arith,
  text_beq_iff,
}
use recon_sync.Provider.Settlement.{
  SettlementRecord, SettlementFile, SettlementOptions, Library, Csv, unreadable, rows,
}
use recon_sync.Provider.Settlement.Parse.{
  cover, add_record, row_record, add_row, row_loop, empty_file, parse_csv, at_index, header_index,
}

-- The time of a record is unknown or within the period of the file.
abbrev pub Within : SettlementFile → ℕ → Type 0
Within file at = (at ≡ 0) ⊎ ((file.covers_from ≤ at) × (at ≤ file.covers_to))

-- The period has both ends, in their order, or none.
abbrev pub Ends : SettlementFile → Type 0
Ends file =
    ((file.covers_from ≡ 0) × (file.covers_to ≡ 0))
    ⊎ ((0 < file.covers_from) × (file.covers_from ≤ file.covers_to))

module _ (lib : Library) where
  -- Every record stands under its reference in capitals, within the period that the file covers,
  -- and the period has both ends, in their order, or none.
  abbrev pub Covered : SettlementFile → Type 0
  Covered file =
      Ends file
      × ((key : Text) (r : SettlementRecord)
          → lookup key file.records ≡ some r
          → (key ≡ lib.upper r.reference) × Within file r.settled_at)

  cover-Ends : (file : SettlementFile) (at : ℕ) → Ends file → Ends (cover file at)
  cover-Ends file at h = ground arith

  cover-Within_old :
      (file : SettlementFile) (at t : ℕ) → Ends file → Within file t → Within (cover file at) t
  cover-Within_old file at t h w = ground arith

  cover-Within_new : (file : SettlementFile) (at : ℕ) → Ends file → Within (cover file at) at
  cover-Within_new file at h = ground arith

  cover-records : (file : SettlementFile) (at : ℕ) → (cover file at).records ≡ file.records
  cover-records file at = ground arith

  found_in :
      (file : SettlementFile) (r x : SettlementRecord) (key : Text)
      → lookup key (add_record lib file r).records ≡ some x
      → ((key ≡ lib.upper r.reference) × (x ≡ r)) ⊎ (lookup key file.records ≡ some x)
  unfolding add_record
  found_in file r x key h =
      let at = lookup-insert (lib.upper r.reference) key r file.records in
      let whole = ap (lookup key) (
        cover-records (record file { records = insert (lib.upper r.reference) r file.records })
          r.settled_at) in
      elim (Bool-cases (lib.upper r.reference =? key)) [
        | inl e ↦
            inl (sym ((text_beq_iff (lib.upper r.reference) key).0 e), ground (arith, at, whole))
        | inr e ↦ inr (ground (arith, at, whole))
      ]

  add_record-Covered :
      (file : SettlementFile) (r : SettlementRecord)
      → Covered file
      → Covered (add_record lib file r)
  unfolding add_record
  add_record-Covered file r c =
      let f : SettlementFile = record file {
        records = insert (lib.upper r.reference) r file.records;
      } in
      (
        cover-Ends f r.settled_at c.0,
        λ key x h. elim (found_in file r x key h) [
          | inl new ↦ (
            new.0 ∙ ap (λ (y : SettlementRecord). lib.upper y.reference) (sym new.1),
            subst (λ (y : SettlementRecord). Within (add_record lib file r) y.settled_at)
                (sym new.1) (cover-Within_new f r.settled_at c.0),
          )
          | inr old ↦ (
            (c.1 key x old).0,
            cover-Within_old f r.settled_at x.settled_at c.0 (c.1 key x old).1,
          )
        ],
      )

  module _ (opts : SettlementOptions) (index : Dict Text ℕ) (ref_col : ℕ) where
    add_row-Covered :
        (file : SettlementFile) (row : List Text)
        → Covered file
        → Covered (add_row lib opts index ref_col file row)
    unfolding add_row
    add_row-Covered file row c = elim (Option-cases (at_index ref_col row)) [
      | inl e ↦ rw (e, add_row) c
      | inr (reference, e) ↦ elim (Bool-cases (length (lib.trim reference) == 0)) [
        | inl blank ↦ rw (e, add_row, blank) c
        | inr there ↦
            rw (e, add_row, there)
              (add_record-Covered file (row_record lib opts index reference row) c)
      ]
    ]

    row_loop-Covered :
        (body : List (List Text)) (file : SettlementFile)
        → Covered file
        → Covered (row_loop lib opts index ref_col body file)
    unfolding row_loop
    row_loop-Covered [] file c = c
    row_loop-Covered (row ∷ body) file c =
        row_loop-Covered body (add_row lib opts index ref_col file row) (add_row-Covered file row c)

  empty_file-Covered : (path : Text) → Covered (empty_file path)
  unfolding lookup
  empty_file-Covered path = (inl (refl, refl), λ key r h. absurd (cc))

  -- In a file that was parsed every record stands under its reference in capitals, and its time, if
  -- it has one, lies in the period that the file is said to cover; the period has a first and a last
  -- instant, in their order, or neither.
  pub parse_csv-Covered :
      (opts : SettlementOptions) (path : Text) (csv : Csv) {file : SettlementFile}
      → parse_csv lib opts path csv ≡ some file
      → Covered file
  unfolding parse_csv
  parse_csv-Covered opts path unreadable h = absurd (cc)
  parse_csv-Covered opts path (rows header body ended) {file} h =
      let index = header_index lib header in
      elim (Option-cases (lookup (lib.lower opts.columns.reference) index)) [
        | inl e ↦ absurd (ground arith)
        | inr (ref_col, e) ↦ elim (Bool-cases ended) [
          | inr f ↦ absurd (ground arith)
          | inl f ↦
              let read : SettlementFile = row_loop lib opts index ref_col body (empty_file path) in
              let same : read ≡ file = ground arith in
              subst Covered same (
                row_loop-Covered opts index ref_col body (empty_file path)
                  (empty_file-Covered path))
        ]
      ]
