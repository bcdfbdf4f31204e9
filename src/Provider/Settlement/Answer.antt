-- ===== src/Provider/Settlement/Answer.antt =====
-- settlement.go: Query, and what it makes of a record or of none.
use recon_sync.Common.{
  ℕ, ◌+◌, Bool, true, false, not, ◌&&◌, ◌||◌, Option, none, some, List, [], ◌∷◌, ◌++◌, Text, ascii,
  lookup, length, ltb, ◌==◌, if◌then◌else◌, text_beq, text_eq, pos, ltℤ, eqℤ,
}
use recon_sync.Provider.{Ref, RailStatus, Outcome}
use recon_sync.Provider.Settlement.{
  SettlementRecord, SettlementFile, SettlementOptions, Library, Disk, Settlement,
}
use recon_sync.Provider.Settlement.Load.{refresh}

abbrev pub latest_loop : List SettlementFile → ℕ → ℕ
latest_loop [] latest = latest
latest_loop (f ∷ files) latest =
    latest_loop files (if ltb latest f.covers_to then f.covers_to else latest)

unfoldable pub latest_coverage : List SettlementFile → ℕ
latest_coverage files = latest_loop files 0

-- The answers, without the texts that the source formats.
abbrev pub answer : SettlementOptions → Outcome → Text → ℕ → Text → RailStatus
answer opts outcome reference at detail = record {
  outcome = outcome;
  provider = opts.name;
  reference = reference;
  observed_at = at;
  detail = detail;
}

unfoldable pub absent : SettlementOptions → ℕ → Settlement → RailStatus
unfolding latest_coverage
absent opts now s =
    if length s.files == 0
    then answer opts Outcome.unknown [] 0 (ascii "no settlement files have been delivered")
    else if ltb now (latest_coverage s.files + opts.grace)
    then answer opts Outcome.unknown [] 0 (ascii "not in any settlement file yet")
    else answer opts Outcome.not_found [] 0 (ascii "absent from settlement files")

abbrev pub amounts_differ : Ref → SettlementRecord → Bool
amounts_differ ref r =
    ltℤ (pos 0) ref.amount_minor
    && (ltℤ (pos 0) r.amount_minor && not (eqℤ r.amount_minor ref.amount_minor))

-- The record of the first file that has one.
unfoldable pub find_record : Text → List SettlementFile → Option SettlementRecord
find_record key [] = none
find_record key (f ∷ files) = elim (lookup key f.records) [
  | some r ↦ some r
  | none ↦ find_record key files
]

module _ (lib : Library) where
  abbrev listed_status : Text → List Text → Bool
  listed_status got [] = false
  listed_status got (s ∷ statuses) = text_beq got (lib.lower s) || listed_status got statuses

  unfoldable pub is_settled : SettlementOptions → Text → Bool
  is_settled opts status =
      if length status == 0
      then true
      else listed_status (lib.lower (lib.trim status)) opts.settled_statuses

  abbrev pub lookup_key : Ref → Text
  lookup_key ref =
      if not (length ref.provider_ref == 0)
      then lib.upper ref.provider_ref
      else lib.upper ref.transaction_id

  unfoldable pub answer_for : SettlementOptions → Ref → SettlementRecord → RailStatus
  unfolding is_settled
  answer_for opts ref r =
      if not (is_settled opts r.status)
      then answer opts Outcome.failed r.reference r.settled_at
          (ascii "settlement file records status " ++ r.status)
      else if amounts_differ ref r
      then answer opts Outcome.unknown r.reference 0 (ascii "settlement file shows another amount")
      else answer opts Outcome.settled r.reference r.settled_at
          (ascii "settlement file confirms it settled")

  unfoldable pub answer_loaded : SettlementOptions → ℕ → Settlement → Ref → RailStatus
  unfolding find_record answer_for absent
  answer_loaded opts now s ref = elim (find_record (lookup_key ref) s.files) [
    | some r ↦ answer_for opts ref r
    | none ↦ absent opts now s
  ]

  unfoldable pub query_settlement :
      SettlementOptions → Disk → ℕ → Settlement → Ref → Settlement × RailStatus
  unfolding refresh answer_loaded
  query_settlement opts disk now s ref =
      let (s', readable) = refresh lib opts disk now s in
      if not readable
      then (s', answer opts Outcome.unknown [] 0 (ascii "settlement files could not be read"))
      else (s', answer_loaded opts now s' ref)
