-- ===== src/Plugin/Catalog.antt =====
-- The presets of an instance: buildCatalog of src/plugin/mnm_plugin.cpp, behind the reading of the dumps,
-- whose kits are those of upstream's parser.
pub mod Listing
mod Tests
use schwung_monomodule.Prelude.{
  ℕ, suc, ◌+◌, ◌%◌, Bool, true, false, not, ◌||◌, Option, none, some, List, [], ◌∷◌, ◌++◌, map,
  take, min, ◌==◌, if◌then◌else◌,
}
use schwung_monomodule.Prelude.Int.{pos}
use schwung_monomodule.Text.{Bytes, codes, same, print}
use schwung_monomodule.Ui.{Tables}
use schwung_monomodule.Plugin.Convert.{valid_machine}
use schwung_monomodule.Plugin.Instance.{PresetSound}

-- A track of a kit, and a kit, as upstream's parser gives them. The bytes of `params` go on behind the 56
-- that are used.
pub record Track : Type 0 where
  pub model : ℕ
  pub level : ℕ
  pub params : List ℕ

pub record Kit : Type 0 where
  pub name : Bytes
  pub is_empty_slot : Bool
  pub tracks : List Track

-- The keys seen, and the sounds listed.
pub record Build : Type 0 where
  pub seen : List Bytes
  pub sounds : List PresetSound

unfoldable pub is_seen : Bytes → List Bytes → Bool
unfolding same
is_seen k [] = false
is_seen k (x ∷ xs) = same k x || is_seen k xs

-- A sound's 56 values, its machine and its level, a byte each.
abbrev pub key_of : Track → Bytes
key_of tr = take 56 tr.params ++ (tr.model % 256 ∷ (tr.level % 256 ∷ []))

-- Track `t` of a kit as a preset. The name has 27 characters at most.
abbrev pub sound_of : Bytes → ℕ → Track → PresetSound
sound_of name t tr = record {
  name = take 27 (name ++ (codes " " ++ print (pos (t + 1))));
  machine = tr.model;
  level = min tr.level 127;
  params = map (λ b. min b 127) (take 56 tr.params);
}

module _ (ui : Tables) (gnd : ℕ) where
  -- A machine of this build, and not an unused track.
  abbrev pub is_listed : Track → Bool
  is_listed tr = if valid_machine ui.machines (pos tr.model) then not (tr.model == gnd) else false

  unfoldable pub add_track : Bytes → ℕ → Track → Build → Build
  unfolding is_seen
  add_track name t tr b =
      if is_listed tr
      then (if is_seen (key_of tr) b.seen
          then b
          else record { seen = key_of tr ∷ b.seen; sounds = b.sounds ++ (sound_of name t tr ∷ []) })
      else b

  -- The tracks from number `t` on.
  unfoldable pub add_tracks : Bytes → ℕ → List Track → Build → Build
  unfolding add_track
  add_tracks name t [] b = b
  add_tracks name t (tr ∷ trs) b = add_tracks name (suc t) trs (add_track name t tr b)

  unfoldable pub add_kits : List Kit → Build → Build
  unfolding add_tracks
  add_kits [] b = b
  add_kits (k ∷ ks) b =
      add_kits ks (if k.is_empty_slot then b else add_tracks k.name 0 (take 6 k.tracks) b)

  -- The files: `none` where one cannot be opened or is not a dump.
  unfoldable pub add_files : List (Option (List Kit)) → Build → Build
  unfolding add_kits
  add_files [] b = b
  add_files (none ∷ fs) b = add_files fs b
  add_files (some ks ∷ fs) b = add_files fs (add_kits ks b)

  -- `buildCatalog`
  unfoldable pub build_catalog : List (Option (List Kit)) → List PresetSound
  unfolding add_files
  build_catalog files = (add_files files (record { seen = []; sounds = [] })).sounds
