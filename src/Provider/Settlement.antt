-- ===== src/Provider/Settlement.antt =====
-- internal/provider/settlement.go: the adapter that answers from an institution's settlement files.
-- `Library` holds what Go's standard library does with text, numbers and times, and the disk is
-- an argument: what a listing, a stat and a CSV reader give. A time is in nanoseconds, 0 for the
-- zero time. Parse is one file, Load the directory, Answer the question.
pub mod Parse
pub mod Load
pub mod Answer
pub mod Files
pub mod Absence
use recon_sync.Common.{
  ℕ, ◌+◌, ◌-◌, Bool, true, false, not, ◌&&◌, ◌||◌, Option, none, some, List, [], ◌∷◌, ◌++◌, Text,
  ascii, Dict, lookup, insert, length, ltb, leb, ◌==◌, if◌then◌else◌, text_beq, text_eq, sort_slice,
  select, is_some, ℤ, pos, ltℤ, eqℤ,
}
use recon_sync.Domain.Status.{text_less}
use recon_sync.Provider.{Ref, RailStatus, Outcome}

pub record SettlementRecord : Type 0 where
  pub reference : Text
  pub amount_minor : ℤ
  pub currency : Text
  pub settled_at : ℕ
  pub status : Text

pub record SettlementFile : Type 0 where
  pub path : Text
  pub covers_from : ℕ
  pub covers_to : ℕ
  pub records : Dict Text SettlementRecord

pub record SettlementColumns : Type 0 where
  pub reference : Text
  pub amount : Text
  pub currency : Text
  pub settled_at : Text
  pub status : Text

-- `SettlementOptions`; a grace of 0 stands for any that is not positive, and `none` for a negative
-- refresh interval.
pub record SettlementOptions : Type 0 where
  pub name : Text
  pub dir : Text
  pub glob : Text
  pub layout : Text
  pub settled_statuses : List Text
  pub columns : SettlementColumns
  pub grace : ℕ
  pub refresh_interval : Option ℕ

-- `strings`, `strconv` and `time.Parse`: `parse_int` gives an int64, and `parse_major` is what Go
-- makes of `int64(f*100 + 0.5)` for the float of the text.
pub record Library : Type 0 where
  pub lower : Text → Text
  pub upper : Text → Text
  pub trim : Text → Text
  pub drop_bom : Text → Text
  pub strip : Text → Text
  pub parse_int : Text → Option ℤ
  pub parse_major : Text → Option ℤ
  pub parse_time : Text → Text → Option ℕ

-- What a CSV reader gives: it may not open, or have no header; `ended` tells whether the rows end
-- with the file or with an error.
pub data Csv : Type 0 where
  unreadable : Csv
  rows : List Text → List (List Text) → Bool → Csv

-- `filepath.Glob`, `os.Stat` and the files, at one time.
pub record Disk : Type 0 where
  pub glob : Option (List Text)
  pub stat : Text → Option ℕ
  pub open_csv : Text → Csv

-- The state of a `SettlementProvider`.
pub record Settlement : Type 0 where
  pub files : List SettlementFile
  pub loaded : Dict Text ℕ
  pub last_checked : ℕ

abbrev pub default_settlement_grace : ℕ
default_settlement_grace = 93_600_000_000_000

abbrev pub default_refresh_interval : ℕ
default_refresh_interval = 5_000_000_000

abbrev default_statuses : List Text
default_statuses =
    ascii "success" ∷ ascii "successful" ∷ ascii "settled" ∷ ascii "completed" ∷ ascii "paid" ∷ []

abbrev or_text : Text → Text → Text
or_text t default = if length t == 0 then default else t

abbrev refresh_or_default : Option ℕ → Option ℕ
refresh_or_default none = some 0
refresh_or_default (some n) = if n == 0 then some default_refresh_interval else some n

-- The options as `NewSettlementProvider` completes them; `rfc3339` is Go's layout.
unfoldable pub with_defaults : Text → SettlementOptions → SettlementOptions
with_defaults rfc3339 opts = record opts {
  glob = or_text opts.glob (ascii "*.csv");
  layout = or_text opts.layout rfc3339;
  columns = record (opts.columns) {
    reference = or_text opts.columns.reference (ascii "reference");
  };
  grace = if opts.grace == 0 then default_settlement_grace else opts.grace;
  refresh_interval = refresh_or_default opts.refresh_interval;
  settled_statuses =
      (if length opts.settled_statuses == 0 then default_statuses else opts.settled_statuses);
}
