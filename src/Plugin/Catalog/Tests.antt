-- ===== src/Plugin/Catalog/Tests.antt =====
-- The catalog of a dump that holds a sound twice.
use schwung_monomodule.Prelude.{
  ℕ, ◌≡◌, ◌≢◌, refl, false, none, some, List, [], ◌∷◌, ◌++◌, arith, length, replicate, All, Option,
}
use schwung_monomodule.Text.{codes, same}
use schwung_monomodule.Ui.One
use schwung_monomodule.Plugin.Convert.{valid_machine, find_machine}
use schwung_monomodule.Plugin.Entry.Sounds.{IsSound}
use schwung_monomodule.Plugin.Catalog.{
  Track, Kit, build_catalog, add_files, add_kits, add_tracks, add_track, is_seen,
}
use schwung_monomodule.Plugin.Catalog.Listing.Firsts.{first_of_each, sounds_of}
use schwung_monomodule.Plugin.Catalog.Listing.{candidates, build_catalog_lem}
use schwung_monomodule.Plugin.Supervisor.Presets.{
  Listed, Dumps, initial, refresh_all, refresh_presets, expire, look, is_current,
}
use schwung_monomodule.Plugin.Supervisor.Presets.Sparing.{refresh_presets_lem}
use schwung_monomodule.Plugin.Tests.{one, one-IsTables}

abbrev track : ℕ → Track
track level = record { model = 9; level = level; params = replicate 72 200 }

abbrev unused : Track
unused = record { model = 0; level = 100; params = replicate 72 0 }

abbrev files : List (Option (List Kit))
files =
    none
    ∷ (some (
          record {
            name = codes "KIT A";
            is_empty_slot = false;
            tracks = unused ∷ (track 200 ∷ (track 200 ∷ (track 90 ∷ [])));
          }
          ∷ [])
        ∷ [])

build_catalog_lem_example :
    (build_catalog one 0 files ≡ sounds_of (first_of_each (candidates one 0 files)))
    × All IsSound (build_catalog one 0 files)
build_catalog_lem_example = build_catalog_lem one 0 files one-IsTables (omega arith)

two_listed : length (build_catalog one 0 files) ≡ 2
unfolding build_catalog add_files add_kits add_tracks add_track is_seen same valid_machine
    find_machine One.tables
two_listed = refl

-- The files, changed after the first look.
abbrev dumps : ℕ → Dumps
dumps signature = record { signature = signature; are_none = false; built = [] }

abbrev first : Listed
first = record { address = 0; signature = 1; sounds = [] }

first_published : (refresh_all (dumps 1 ∷ []) initial).catalog ≡ some first
unfolding refresh_all refresh_presets expire look is_current
first_published = refl

refresh_presets_lem_example :
    All
      (λ k. k ≢ first)
      (refresh_presets
        (dumps 2)
        (refresh_all (replicate 9 (dumps 2)) (refresh_all (dumps 1 ∷ []) initial))).0
refresh_presets_lem_example =
    refresh_presets_lem (dumps 1 ∷ []) (replicate 9 (dumps 2)) (dumps 2) first first_published
      (omega arith)

-- Replaced at the 31st poll, it is deleted at the 41st.
freed_at_ten :
    (refresh_presets
      (dumps 2)
      (refresh_all (replicate 30 (dumps 1) ++ replicate 10 (dumps 2)) initial)).0
    ≡ first ∷ []
unfolding refresh_all refresh_presets expire look is_current
freed_at_ten = refl
