-- ===== src/Provider/Settlement/Load.antt =====
-- settlement.go: NewSettlementProvider, Reload, and when the directory is read again.
use recon_sync.Common.{
  ℕ, ◌+◌, Bool, true, false, not, ◌&&◌, ◌||◌, Option, none, some, List, [], ◌∷◌, ◌++◌, Text, Dict,
  lookup, insert, length, ltb, ◌==◌, if◌then◌else◌, text_eq, sort_slice,
}
use recon_sync.Domain.Status.{text_less}
use recon_sync.Provider.Settlement.{
  SettlementFile, SettlementOptions, Library, Disk, Settlement, with_defaults,
}
use recon_sync.Provider.Settlement.Parse.{parse_file}

abbrev reloaded : Settlement → Option (List SettlementFile × Dict Text ℕ) → Settlement × Bool
reloaded s none = (s, false)
reloaded s (some (files, loaded)) = (record s { files = files; loaded = loaded }, true)

-- `NewSettlementProvider`; the error is its text.
abbrev pub no_files : Settlement
no_files = record { files = []; loaded = []; last_checked = 0 }

abbrev interval_of : Option ℕ → ℕ
interval_of none = 0
interval_of (some n) = n

unfoldable pub due_for_refresh : SettlementOptions → ℕ → Settlement → Settlement × Bool
due_for_refresh opts now s =
    if not (s.last_checked == 0) && ltb now (s.last_checked + interval_of opts.refresh_interval)
    then (s, false)
    else (record s { last_checked = now }, true)

abbrev differs : Option ℕ → Option ℕ → Bool
differs none known = true
differs (some modified) none = true
differs (some modified) (some known) = not (known == modified)

unfoldable pub any_changed : Disk → Dict Text ℕ → List Text → Bool
any_changed disk loaded [] = false
any_changed disk loaded (path ∷ paths) =
    differs (disk.stat path) (lookup path loaded) || any_changed disk loaded paths

unfoldable pub changed : Disk → Settlement → Bool
unfolding any_changed
changed disk s = elim disk.glob [
  | none ↦ false
  | some paths ↦
      if not (length paths == length s.loaded) then true else any_changed disk s.loaded paths
]

module _ (lib : Library) where
  -- The loop of `Reload`; `none` if a file could not be parsed.
  unfoldable pub reload_loop :
      SettlementOptions
      → Disk
      → List Text
      → List SettlementFile
      → Dict Text ℕ
      → Option (List SettlementFile × Dict Text ℕ)
  unfolding parse_file
  reload_loop opts disk [] files loaded = some (files, loaded)
  reload_loop opts disk (path ∷ paths) files loaded = elim (disk.stat path) [
    | none ↦ reload_loop opts disk paths files loaded
    | some modified ↦ elim (parse_file lib opts disk path) [
      | none ↦ none
      | some file ↦ reload_loop opts disk paths (files ++ file ∷ []) (insert path modified loaded)
    ]
  ]

  -- `Reload`; whether it succeeded.
  unfoldable pub reload : SettlementOptions → Disk → Settlement → Settlement × Bool
  unfolding reload_loop
  reload opts disk s = elim disk.glob [
    | none ↦ (s, false)
    | some paths ↦ reloaded s (reload_loop opts disk (sort_slice text_less paths) [] [])
  ]

  unfoldable pub new_settlement : Text → SettlementOptions → Disk → Option Settlement
  unfolding with_defaults reload
  new_settlement rfc3339 opts disk =
      if length opts.name == 0
      then none
      else if length opts.dir == 0
      then none
      else let (s, done) = reload (with_defaults rfc3339 opts) disk no_files in
        if done then some s else none

  -- The refresh of `Query`: the state, and whether the files could be read.
  unfoldable pub refresh : SettlementOptions → Disk → ℕ → Settlement → Settlement × Bool
  unfolding due_for_refresh changed reload
  refresh opts disk now s =
      let (s', due) = due_for_refresh opts now s in
      if due && changed disk s' then reload opts disk s' else (s', true)
