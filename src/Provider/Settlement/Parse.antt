-- ===== src/Provider/Settlement/Parse.antt =====
-- settlement.go, parseFile: one file into its records and the period that it covers.
use recon_sync.Common.{
  ℕ, ◌+◌, ◌-◌, ◌||◌, Option, none, some, List, [], ◌∷◌, Text, Dict, lookup, insert, length, ltb,
  ◌==◌, if◌then◌else◌, text_eq, ℤ, pos,
}
use recon_sync.Provider.Settlement.{
  SettlementRecord, SettlementFile, SettlementOptions, Library, Csv, unreadable, rows, Disk,
}

-- `row[i]`, and nothing out of range.
abbrev pub at_index : ℕ → List Text → Option Text
at_index i [] = none
at_index i (x ∷ xs) = if i == 0 then some x else at_index (i - 1) xs

abbrev time_or_zero : Option ℕ → ℕ
time_or_zero none = 0
time_or_zero (some t) = t

-- The period grows to the time of the record, if it has one.
abbrev pub cover : SettlementFile → ℕ → SettlementFile
cover file at = if at == 0 then file else record file {
  covers_from = if (file.covers_from == 0) || ltb at file.covers_from then at else file.covers_from;
  covers_to = if ltb file.covers_to at then at else file.covers_to;
}

abbrev pub empty_file : Text → SettlementFile
empty_file path = record { path = path; covers_from = 0; covers_to = 0; records = [] }

module _ (lib : Library) where
  -- A later column of the same name replaces an earlier one.
  unfoldable pub index_loop : ℕ → List Text → Dict Text ℕ → Dict Text ℕ
  index_loop i [] index = index
  index_loop i (h ∷ header) index =
      index_loop (i + 1) header (insert (lib.lower (lib.trim (lib.drop_bom h))) i index)

  unfoldable pub header_index : List Text → Dict Text ℕ
  unfolding index_loop
  header_index header = index_loop 0 header []

  abbrev trimmed_or_empty : Option Text → Text
  trimmed_or_empty none = []
  trimmed_or_empty (some t) = lib.trim t

  abbrev column : Option ℕ → List Text → Text
  column none row = []
  column (some i) row = trimmed_or_empty (at_index i row)

  unfoldable pub cell : List Text → Dict Text ℕ → Text → Text
  cell row index name = if length name == 0 then [] else column (lookup (lib.lower name) index) row

  abbrev minor_or_zero : Option ℤ → ℤ
  minor_or_zero none = pos 0
  minor_or_zero (some n) = n

  unfoldable pub parse_minor : Text → ℤ
  parse_minor raw = elim (lib.parse_int (lib.strip raw)) [
    | some n ↦ n
    | none ↦ minor_or_zero (lib.parse_major (lib.strip raw))
  ]

  -- The record of a row whose reference is there.
  unfoldable pub row_record : SettlementOptions → Dict Text ℕ → Text → List Text → SettlementRecord
  unfolding cell parse_minor
  row_record opts index reference row =
      let amount = cell row index opts.columns.amount in
      let settled_at = cell row index opts.columns.settled_at in
      record {
        reference = lib.trim reference;
        amount_minor = if length amount == 0 then pos 0 else parse_minor amount;
        currency = lib.upper (cell row index opts.columns.currency);
        settled_at =
            (if length settled_at == 0
              then 0
              else time_or_zero (lib.parse_time opts.layout settled_at));
        status = cell row index opts.columns.status;
      }

  unfoldable pub add_record : SettlementFile → SettlementRecord → SettlementFile
  add_record file r =
      cover (record file { records = insert (lib.upper r.reference) r file.records }) r.settled_at

  unfoldable pub add_row :
      SettlementOptions → Dict Text ℕ → ℕ → SettlementFile → List Text → SettlementFile
  unfolding row_record add_record
  add_row opts index ref_col file row = elim (at_index ref_col row) [
    | none ↦ file
    | some reference ↦
        if length (lib.trim reference) == 0
        then file
        else add_record file (row_record opts index reference row)
  ]

  unfoldable pub row_loop :
      SettlementOptions → Dict Text ℕ → ℕ → List (List Text) → SettlementFile → SettlementFile
  unfolding add_row
  row_loop opts index ref_col [] file = file
  row_loop opts index ref_col (row ∷ rest) file =
      row_loop opts index ref_col rest (add_row opts index ref_col file row)

  -- `none` stands for the errors of `parseFile`.
  unfoldable pub parse_csv : SettlementOptions → Text → Csv → Option SettlementFile
  unfolding row_loop header_index
  parse_csv opts path unreadable = none
  parse_csv opts path (rows header body ended) =
      let index = header_index header in
      elim (lookup (lib.lower opts.columns.reference) index) [
        | none ↦ none
        | some ref_col ↦
            let file = row_loop opts index ref_col body (empty_file path) in
            if ended then some file else none
      ]

  unfoldable pub parse_file : SettlementOptions → Disk → Text → Option SettlementFile
  unfolding parse_csv
  parse_file opts disk path = parse_csv opts path (disk.open_csv path)
