-- ===== src/Tests/Settling.antt =====
-- The properties of the settlement files.
use recon_sync.Common.{
  ◌≡◌, refl, some, none, [], ◌∷◌, ascii, true, false, length, lookup, insert, text_eq, pos, inl,
  arith,
}
use recon_sync.Provider.{Ref, Outcome}
use recon_sync.Provider.Settlement.{
  Library, SettlementOptions, SettlementFile, SettlementRecord, Settlement, Csv, rows,
  with_defaults,
}
use recon_sync.Provider.Settlement.Parse.{
  parse_csv, empty_file, header_index, index_loop, row_loop, add_row, row_record, add_record, cell,
  parse_minor,
}
use recon_sync.Provider.Settlement.Answer.{
  answer_loaded, is_settled, amounts_differ, find_record, answer_for,
}
use recon_sync.Provider.Settlement.Files.{Covered, parse_csv-Covered}
use recon_sync.Provider.Settlement.Absence.{InFile, answer_loaded-InFile, answer_loaded-untimed}

-- Texts are taken as they are; an amount is 500, and a time its number of characters.
abbrev library : Library
library = record {
  lower = λ t. t;
  upper = λ t. t;
  trim = λ t. t;
  drop_bom = λ t. t;
  strip = λ t. t;
  parse_int = λ t. some (pos 500);
  parse_major = λ t. none;
  parse_time = λ layout t. some (length t);
}

abbrev options : SettlementOptions
options = with_defaults (ascii "rfc3339") (record {
  name = ascii "nip";
  dir = ascii "files";
  glob = [];
  layout = [];
  settled_statuses = [];
  columns = record {
    reference = [];
    amount = ascii "amount";
    currency = [];
    settled_at = ascii "at";
    status = ascii "status";
  };
  grace = 10;
  refresh_interval = none;
})

abbrev csv : Csv
csv =
    rows (ascii "reference" ∷ ascii "amount" ∷ ascii "at" ∷ [])
      ((ascii "tx1" ∷ ascii "500" ∷ ascii "20" ∷ []) ∷ (ascii "tx2" ∷ []) ∷ ([]) ∷ []) true

abbrev line1 : SettlementRecord
line1 = record {
  reference = ascii "tx1";
  amount_minor = pos 500;
  currency = [];
  settled_at = 2;
  status = [];
}

abbrev line2 : SettlementRecord
line2 = record {
  reference = ascii "tx2";
  amount_minor = pos 0;
  currency = [];
  settled_at = 0;
  status = [];
}

abbrev parsed : SettlementFile
parsed = record {
  path = ascii "day1";
  covers_from = 2;
  covers_to = 2;
  records = (ascii "tx1", line1) ∷ (ascii "tx2", line2) ∷ [];
}

parse_csv-Covered_example : Covered library parsed
unfolding parse_csv header_index index_loop row_loop add_row row_record add_record cell parse_minor
    insert lookup with_defaults
parse_csv-Covered_example = parse_csv-Covered library options (ascii "day1") csv refl

abbrev asked : Ref
asked = record {
  tenant_id = ascii "bank";
  transaction_id = ascii "tx1";
  provider = ascii "nip";
  provider_ref = [];
  amount_minor = pos 500;
  currency = [];
}

abbrev day1 : Settlement
day1 = record { files = parsed ∷ []; loaded = []; last_checked = 0 }

answer_loaded-InFile_example :
    (r : SettlementRecord) × InFile (parsed ∷ []) (ascii "tx1") r
    × (((answer_loaded library options 50 day1 asked).outcome ≡ Outcome.settled
          → (is_settled library options r.status ≡ true) × (amounts_differ asked r ≡ false))
        × ((answer_loaded library options 50 day1 asked).outcome ≡ Outcome.failed
            → is_settled library options r.status ≡ false))
unfolding answer_loaded find_record answer_for lookup is_settled
answer_loaded-InFile_example = answer_loaded-InFile library options 50 day1 asked (inl refl)

-- A file whose only row has another reference and no time.
abbrev undated : Settlement
undated = record {
  files = record (empty_file (ascii "day2")) { records = (ascii "tx2", line2) ∷ [] } ∷ [];
  loaded = [];
  last_checked = 0;
}

answer_loaded-untimed_example :
    (answer_loaded library options 50 undated asked).outcome ≡ Outcome.not_found
unfolding lookup with_defaults
answer_loaded-untimed_example =
    answer_loaded-untimed library options 50 undated asked (omega arith) (refl, tt) (refl, tt)
      (omega arith)
