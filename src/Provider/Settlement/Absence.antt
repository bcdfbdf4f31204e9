-- ===== src/Provider/Settlement/Absence.antt =====
-- What the adapter's answers rest on: the records of the files, and what it makes of absence.
use recon_sync.Common.{
  ℕ, ◌+◌, ◌≤◌, ◌<◌, true, false, ◌≡◌, ◌⊎◌, refl, subst, inl, inr, none, some, List, [], ◌∷◌, Text,
  lookup, length, Bool-cases, Option-cases, text_eq, ◌==◌, ltb, arith, All, if◌then◌else◌,
}
use recon_sync.Provider.{Outcome, Ref, RailStatus}
use recon_sync.Provider.Settlement.{
  SettlementRecord, SettlementFile, SettlementOptions, Library, Settlement,
}
use recon_sync.Provider.Settlement.Answer.{
  is_settled, lookup_key, latest_loop, latest_coverage, absent, amounts_differ, answer_for,
  find_record, answer_loaded,
}

-- One of the files has the record under the key.
abbrev pub InFile : List SettlementFile → Text → SettlementRecord → Type 0
InFile [] key r = ⊥
InFile (f ∷ files) key r = (lookup key f.records ≡ some r) ⊎ InFile files key r

-- None of the files has a record under the key.
abbrev pub Missing : Text → List SettlementFile → Type 0
Missing key files = All (λ (f : SettlementFile). lookup key f.records ≡ none) files

module _ (lib : Library) where
  find_record-InFile :
      (files : List SettlementFile) (key : Text) (r : SettlementRecord)
      → find_record key files ≡ some r
      → InFile files key r
  unfolding find_record
  find_record-InFile [] key r h = absurd (cc)
  find_record-InFile (f ∷ files) key r h = elim (Option-cases (lookup key f.records)) [
    | inl e ↦ inr (find_record-InFile files key r (ground arith))
    | inr (x, e) ↦ inl (ground arith)
  ]

  find_record-Missing :
      (files : List SettlementFile) (key : Text) → Missing key files → find_record key files ≡ none
  unfolding find_record
  find_record-Missing [] key h = refl
  find_record-Missing (f ∷ files) key h = rw (h.0, find_record) (find_record-Missing files key h.1)

  latest_loop-untimed :
      (files : List SettlementFile) (n : ℕ)
      → All (λ (f : SettlementFile). f.covers_to ≡ 0) files
      → latest_loop files n ≡ n
  latest_loop-untimed [] n h = refl
  latest_loop-untimed (f ∷ files) n h =
      let first : (if ltb n f.covers_to then f.covers_to else n) ≡ n = ground (arith, h.0) in
      rw first (latest_loop-untimed files n h.1)

  module _ (opts : SettlementOptions) (now : ℕ) (s : Settlement) (ref : Ref) where
    answer_for-outcome :
        (r : SettlementRecord)
        → ((answer_for lib opts ref r).outcome ≡ Outcome.settled
            → (is_settled lib opts r.status ≡ true) × (amounts_differ ref r ≡ false))
          × ((answer_for lib opts ref r).outcome ≡ Outcome.failed
              → is_settled lib opts r.status ≡ false)
    unfolding answer_for
    answer_for-outcome r = elim (Bool-cases (is_settled lib opts r.status)) [
      | inr e ↦ rw (e, answer_for) (λ h. absurd (cc), λ h. refl)
      | inl e ↦ elim (Bool-cases (amounts_differ ref r)) [
        | inl f ↦ rw (e, answer_for, f) (λ h. absurd (cc), λ h. absurd (cc))
        | inr f ↦ rw (e, answer_for, f) (λ h. (refl, refl), λ h. absurd (cc))
      ]
    ]

    absent-outcome :
        ((absent opts now s).outcome ≡ Outcome.unknown)
        ⊎ ((absent opts now s).outcome ≡ Outcome.not_found)
    unfolding absent
    absent-outcome = ground arith

    neither_absent : ¬ (
        ((absent opts now s).outcome ≡ Outcome.settled)
        ⊎ ((absent opts now s).outcome ≡ Outcome.failed))
    neither_absent (inl e) = elim absent-outcome [ inl f ↦ cc | inr f ↦ cc ]
    neither_absent (inr e) = elim absent-outcome [ inl f ↦ cc | inr f ↦ cc ]

    -- The adapter says settled or failed only for a record in its files under the reference's key:
    -- one whose status counts as settled, and whose amount is not another one where both are known,
    -- or one whose status does not count as settled.
    pub answer_loaded-InFile :
        ((answer_loaded lib opts now s ref).outcome ≡ Outcome.settled)
          ⊎ ((answer_loaded lib opts now s ref).outcome ≡ Outcome.failed)
        → (r : SettlementRecord) × InFile s.files (lookup_key lib ref) r
          × (((answer_loaded lib opts now s ref).outcome ≡ Outcome.settled
                → (is_settled lib opts r.status ≡ true) × (amounts_differ ref r ≡ false))
              × ((answer_loaded lib opts now s ref).outcome ≡ Outcome.failed
                  → is_settled lib opts r.status ≡ false))
    unfolding answer_loaded
    answer_loaded-InFile h = elim (Option-cases (find_record (lookup_key lib ref) s.files)) [
      | inl e ↦
          let same : answer_loaded lib opts now s ref ≡ absent opts now s = rw (e, answer_loaded) in
          absurd (
            neither_absent (
              subst
                (λ (a : RailStatus). (a.outcome ≡ Outcome.settled) ⊎ (a.outcome ≡ Outcome.failed))
                same h))
      | inr (r, e) ↦
          let same : answer_for lib opts ref r ≡ answer_loaded lib opts now s ref =
            rw (e, answer_loaded) in
          (
            r,
            find_record-InFile s.files (lookup_key lib ref) r e,
            subst
                (λ (a : RailStatus).
                  (a.outcome ≡ Outcome.settled
                    → (is_settled lib opts r.status ≡ true) × (amounts_differ ref r ≡ false))
                  × (a.outcome ≡ Outcome.failed → is_settled lib opts r.status ≡ false))
                same (answer_for-outcome r),
          )
    ]

    -- If there are files, none of which has a time in its rows or a record of the reference, then
    -- the adapter says, once the grace period has passed since the zero time, that the rail has no
    -- record of the transaction.
    pub answer_loaded-untimed :
        0 < length s.files
        → All (λ (f : SettlementFile). f.covers_to ≡ 0) s.files
        → Missing (lookup_key lib ref) s.files
        → opts.grace ≤ now
        → (answer_loaded lib opts now s ref).outcome ≡ Outcome.not_found
    unfolding answer_loaded absent latest_coverage
    answer_loaded-untimed pos untimed missing le =
        let late : ltb now (0 + opts.grace) ≡ false = ground arith in
        let some_files : (length s.files == 0) ≡ false = ground arith in
        rw (
          find_record-Missing s.files (lookup_key lib ref) missing,
          answer_loaded,
          some_files,
          absent,
          latest_loop-untimed s.files 0 untimed,
          late,
        )
