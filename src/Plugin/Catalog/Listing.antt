-- ===== src/Plugin/Catalog/Listing.antt =====
-- What the catalog lists (buildCatalog of src/plugin/mnm_plugin.cpp).
pub mod Firsts
use schwung_monomodule.Prelude.{
  ℕ, suc, ◌≤◌, ◌≡◌, ◌∙◌, refl, sym, ap, subst, Bool, true, false, Option, none, some, List, [], ◌∷◌,
  ◌++◌, All-take, map, length, take, min, arith, if◌then◌else◌, All, All-append, Bool-cases, inl,
  inr, length-map, length-take,
}
use schwung_monomodule.Prelude.Int.{pos}
use schwung_monomodule.Text.{Bytes, same}
use schwung_monomodule.Ui.{Tables, IsTables}
use schwung_monomodule.Plugin.Convert.{valid_machine}
use schwung_monomodule.Plugin.Params.Valid.{IsRaw}
use schwung_monomodule.Plugin.Entry.Sounds.{IsSound}
use schwung_monomodule.Plugin.Entry.Lookup.{valid_machine-lt}
use schwung_monomodule.Plugin.Catalog.{
  Track, Kit, Build, is_seen, key_of, sound_of, is_listed, add_track, add_tracks, add_kits,
  add_files, build_catalog,
}
use schwung_monomodule.Plugin.Catalog.Listing.Firsts.{
  Candidate, unseen, first_of_each, unseen-nil, insert, insert_all, sounds_of, insert_all-sounds,
  insert_all-append,
}

module _ (ui : Tables) (gnd : ℕ) where
  -- The tracks of the files that can be listed, in their order, a kit's first six.
  unfoldable pub track_candidates : Bytes → ℕ → List Track → List Candidate
  track_candidates name t [] = []
  track_candidates name t (tr ∷ trs) =
      let rest = track_candidates name (suc t) trs in
      if is_listed ui gnd tr
      then record { key = key_of tr; sound = sound_of name t tr } ∷ rest
      else rest

  unfoldable pub kit_candidates : List Kit → List Candidate
  unfolding track_candidates
  kit_candidates [] = []
  kit_candidates (k ∷ ks) =
      (if k.is_empty_slot then [] else track_candidates k.name 0 (take 6 k.tracks))
      ++ kit_candidates ks

  unfoldable pub candidates : List (Option (List Kit)) → List Candidate
  unfolding kit_candidates
  candidates [] = []
  candidates (none ∷ fs) = candidates fs
  candidates (some ks ∷ fs) = kit_candidates ks ++ candidates fs

  add_tracks-insert :
      (name : Bytes) (trs : List Track) (t : ℕ) (b : Build)
      → add_tracks ui gnd name t trs b ≡ insert_all (track_candidates name t trs) b
  unfolding add_tracks add_track track_candidates insert_all insert
  add_tracks-insert name [] t b = refl
  add_tracks-insert name (tr ∷ trs) t b = elim (Bool-cases (is_listed ui gnd tr)) [
    | inl e ↦ rw e (add_tracks-insert name trs (suc t) _)
    | inr e ↦ rw e (add_tracks-insert name trs (suc t) b)
  ]

  add_kits-insert :
      (ks : List Kit) (b : Build) → add_kits ui gnd ks b ≡ insert_all (kit_candidates ks) b
  unfolding add_kits kit_candidates insert_all
  add_kits-insert [] b = refl
  add_kits-insert (k ∷ ks) b = elim (Bool-cases k.is_empty_slot) [
    | inl e ↦ rw e (add_kits-insert ks b)
    | inr e ↦ rw e (
        add_kits-insert ks _
        ∙ (ap (insert_all (kit_candidates ks)) (add_tracks-insert k.name (take 6 k.tracks) 0 b)
            ∙ insert_all-append (track_candidates k.name 0 (take 6 k.tracks)) _ b))
  ]

  add_files-insert :
      (fs : List (Option (List Kit))) (b : Build)
      → add_files ui gnd fs b ≡ insert_all (candidates fs) b
  unfolding add_files candidates insert_all
  add_files-insert [] b = refl
  add_files-insert (none ∷ fs) b = add_files-insert fs b
  add_files-insert (some ks ∷ fs) b =
      add_files-insert fs _
      ∙ (ap (insert_all (candidates fs)) (add_kits-insert ks b)
          ∙ insert_all-append (kit_candidates ks) (candidates fs) b)

  -- A track has the 56 values of a kit's.
  abbrev pub IsTrack : Track → Type 0
  IsTrack tr = 56 ≤ length tr.params

  abbrev pub IsDump : Option (List Kit) → Type 0
  IsDump none = Unit {0}
  IsDump (some ks) = All (λ (k : Kit). All IsTrack k.tracks) ks

  abbrev Sounds : List Candidate → Type 0
  Sounds cs = All (λ (c : Candidate). IsSound c.sound) cs

  is_listed-valid :
      (tr : Track) → is_listed ui gnd tr ≡ true → valid_machine ui.machines (pos tr.model) ≡ true
  is_listed-valid tr l = ground (arith, l)

  raws-IsRaw : (xs : List ℕ) → All IsRaw (map (λ b. min b 127) xs)
  raws-IsRaw [] = tt
  raws-IsRaw (x ∷ xs) = (omega arith, raws-IsRaw xs)

  sound_of-IsSound :
      IsTables ui
      → (name : Bytes) (t : ℕ) (tr : Track) → IsTrack tr
      → is_listed ui gnd tr ≡ true
      → IsSound (sound_of name t tr)
  sound_of-IsSound h name t tr k l = record {
    machine_in = valid_machine-lt h (pos tr.model) (is_listed-valid tr l);
    level_in = omega arith;
    size =
        omega (arith, length-map (take 56 tr.params) (λ b. min b 127), length-take 56 tr.params, k);
    raws = raws-IsRaw (take 56 tr.params);
  }

  track_candidates-Sounds :
      IsTables ui
      → (name : Bytes) (trs : List Track) (t : ℕ) → All IsTrack trs
      → Sounds (track_candidates name t trs)
  unfolding track_candidates
  track_candidates-Sounds h name [] t k = tt
  track_candidates-Sounds h name (tr ∷ trs) t k = elim (Bool-cases (is_listed ui gnd tr)) [
    | inl e ↦
        rw e (sound_of-IsSound h name t tr k.0 e, track_candidates-Sounds h name trs (suc t) k.1)
    | inr e ↦ rw e (track_candidates-Sounds h name trs (suc t) k.1)
  ]

  kit_candidates-Sounds :
      IsTables ui
      → (ks : List Kit) → All (λ (k : Kit). All IsTrack k.tracks) ks
      → Sounds (kit_candidates ks)
  unfolding kit_candidates
  kit_candidates-Sounds h [] a = tt
  kit_candidates-Sounds h (k ∷ ks) a =
      All-append _ (kit k.is_empty_slot) (kit_candidates ks) (kit-Sounds k.is_empty_slot)
        (kit_candidates-Sounds h ks a.1)
    where
      kit : Bool → List Candidate
      kit b = if b then [] else track_candidates k.name 0 (take 6 k.tracks)

      kit-Sounds : (b : Bool) → Sounds (kit b)
      kit-Sounds true = tt
      kit-Sounds false =
          track_candidates-Sounds h k.name (take 6 k.tracks) 0 (All-take IsTrack 6 k.tracks a.0)

  candidates-Sounds :
      IsTables ui → (fs : List (Option (List Kit))) → All IsDump fs → Sounds (candidates fs)
  unfolding candidates
  candidates-Sounds h [] a = tt
  candidates-Sounds h (none ∷ fs) a = candidates-Sounds h fs a.1
  candidates-Sounds h (some ks ∷ fs) a =
      All-append _ (kit_candidates ks) (candidates fs) (kit_candidates-Sounds h ks a.0)
        (candidates-Sounds h fs a.1)

  unseen-Sounds : (seen : List Bytes) (cs : List Candidate) → Sounds cs → Sounds (unseen seen cs)
  unfolding unseen
  unseen-Sounds seen [] a = tt
  unseen-Sounds seen (c ∷ cs) a = elim (Bool-cases (is_seen c.key seen)) [
    | inl e ↦ rw e (unseen-Sounds seen cs a.1)
    | inr e ↦ rw e (a.0, unseen-Sounds seen cs a.1)
  ]

  first_of_each-Sounds :
      (cs : List Candidate) → Sounds cs → All IsSound (sounds_of (first_of_each cs))
  unfolding first_of_each
  first_of_each-Sounds cs a = listed (first_of_each cs) (firsts cs a)
    where
      listed : (ds : List Candidate) → Sounds ds → All IsSound (sounds_of ds)
      listed [] a = tt
      listed (d ∷ ds) a = (a.0, listed ds a.1)

      firsts : (ds : List Candidate) → Sounds ds → Sounds (first_of_each ds)
      firsts [] a = tt
      firsts (d ∷ ds) a = (a.0, unseen-Sounds (d.key ∷ []) (first_of_each ds) (firsts ds a.1))

  -- The catalog lists, of the tracks of the dumps that can be read, those of this build's machines that
  -- are in use, in their order, and of those with the same values, machine and level the first only.
  -- Where the build's tables are in order and tracks have 56 values, every preset can be loaded.
  pub build_catalog_lem :
      (files : List (Option (List Kit)))
      → IsTables ui
      → All IsDump files
      → (build_catalog ui gnd files ≡ sounds_of (first_of_each (candidates files)))
        × All IsSound (build_catalog ui gnd files)
  unfolding build_catalog
  build_catalog_lem files h a =
      let same : (add_files ui gnd files (record { seen = []; sounds = [] })).sounds
          ≡ sounds_of (first_of_each (candidates files)) =
        ap (λ (b : Build). b.sounds) (add_files-insert files (record { seen = []; sounds = [] }))
        ∙ (insert_all-sounds (candidates files) (record { seen = []; sounds = [] })
            ∙ ap sounds_of (unseen-nil (first_of_each (candidates files)))) in
      (
        same,
        subst (All IsSound) (sym same)
            (first_of_each-Sounds (candidates files) (candidates-Sounds h files a)),
      )
