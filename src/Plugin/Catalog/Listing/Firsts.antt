-- ===== src/Plugin/Catalog/Listing/Firsts.antt =====
-- The first of each key, by the set of the keys seen and by what is left out: buildCatalog of
-- src/plugin/mnm_plugin.cpp.
use schwung_monomodule.Prelude.{
  ◌≡◌, ◌∙◌, refl, sym, ap, subst, true, false, List, [], ◌∷◌, ◌++◌, map, if◌then◌else◌,
  append_assoc, append-nil, Bool-cases, inl, inr,
}
use schwung_monomodule.Text.{Bytes, same}
use schwung_monomodule.Text.Laws.{same_iff}
use schwung_monomodule.Plugin.Instance.{PresetSound}
use schwung_monomodule.Plugin.Catalog.{Build, is_seen}

-- A track that can be listed, by its key.
pub record Candidate : Type 0 where
  pub key : Bytes
  pub sound : PresetSound

-- All but those with a key of `seen`.
unfoldable pub unseen : List Bytes → List Candidate → List Candidate
unseen seen [] = []
unseen seen (c ∷ cs) = if is_seen c.key seen then unseen seen cs else c ∷ unseen seen cs

-- The first of each key, in their order.
unfoldable pub first_of_each : List Candidate → List Candidate
unfolding unseen
first_of_each [] = []
first_of_each (c ∷ cs) = c ∷ unseen (c.key ∷ []) (first_of_each cs)

pub unseen-nil : (cs : List Candidate) → unseen [] cs ≡ cs
unfolding unseen is_seen
unseen-nil [] = refl
unseen-nil (c ∷ cs) = ap (λ ds. c ∷ ds) (unseen-nil cs)

unseen-two :
    (seen : List Bytes) (k : Bytes) (cs : List Candidate)
    → unseen seen (unseen (k ∷ []) cs) ≡ unseen (k ∷ seen) cs
unfolding unseen is_seen
unseen-two seen k [] = refl
unseen-two seen k (c ∷ cs) = elim (Bool-cases (same c.key k)) [
  | inl e ↦ rw e (unseen-two seen k cs)
  | inr e ↦ rw e (elim (Bool-cases (is_seen c.key seen)) [
    | inl q ↦ rw q (unseen-two seen k cs)
    | inr q ↦ rw q (ap (λ ds. c ∷ ds) (unseen-two seen k cs))
  ])
]

unseen-again :
    (seen : List Bytes) (k : Bytes) (cs : List Candidate)
    → is_seen k seen ≡ true
    → unseen (k ∷ seen) cs ≡ unseen seen cs
unfolding unseen is_seen
unseen-again seen k [] h = refl
unseen-again seen k (c ∷ cs) h = elim (Bool-cases (same c.key k)) [
  | inl e ↦
      let q : is_seen c.key seen ≡ true =
        subst (λ x. is_seen x seen ≡ true) (sym ((same_iff c.key k).0 e)) h in
      rw (e, q) (unseen-again seen k cs h)
  | inr e ↦ rw e (elim (Bool-cases (is_seen c.key seen)) [
    | inl q ↦ rw q (unseen-again seen k cs h)
    | inr q ↦ rw q (ap (λ ds. c ∷ ds) (unseen-again seen k cs h))
  ])
]

-- A candidate's turn.
unfoldable pub insert : Candidate → Build → Build
insert c b =
    if is_seen c.key b.seen
    then b
    else record { seen = c.key ∷ b.seen; sounds = b.sounds ++ (c.sound ∷ []) }

unfoldable pub insert_all : List Candidate → Build → Build
unfolding insert
insert_all [] b = b
insert_all (c ∷ cs) b = insert_all cs (insert c b)

insert-seen : (c : Candidate) (b : Build) → is_seen c.key b.seen ≡ true → insert c b ≡ b
unfolding insert
insert-seen c b h = rw h refl

insert-new :
    (c : Candidate) (b : Build)
    → is_seen c.key b.seen ≡ false
    → insert c b ≡ record { seen = c.key ∷ b.seen; sounds = b.sounds ++ (c.sound ∷ []) }
unfolding insert
insert-new c b h = rw h refl

-- The sounds of the candidates.
abbrev pub sounds_of : List Candidate → List PresetSound
sounds_of cs = map (λ (c : Candidate). c.sound) cs

pub insert_all-sounds :
    (cs : List Candidate) (b : Build)
    → (insert_all cs b).sounds ≡ b.sounds ++ sounds_of (unseen b.seen (first_of_each cs))
unfolding insert_all first_of_each unseen
insert_all-sounds [] b = sym (append-nil b.sounds)
insert_all-sounds (c ∷ cs) b = elim (Bool-cases (is_seen c.key b.seen)) [
  | inl e ↦ rw e (
      ap (λ z. (insert_all cs z).sounds) (insert-seen c b e)
      ∙ (insert_all-sounds cs b
          ∙ ap (λ ds. b.sounds ++ sounds_of ds)
              (sym (
                unseen-two b.seen c.key (first_of_each cs)
                ∙ unseen-again b.seen c.key (first_of_each cs) e))))
  | inr e ↦ rw e (
      ap (λ z. (insert_all cs z).sounds) (insert-new c b e)
      ∙ (insert_all-sounds cs
            (record { seen = c.key ∷ b.seen; sounds = b.sounds ++ (c.sound ∷ []) })
          ∙ (append_assoc b.sounds (c.sound ∷ []) _
              ∙ ap (λ ds. b.sounds ++ (c.sound ∷ sounds_of ds))
                  (sym (unseen-two b.seen c.key (first_of_each cs))))))
]

pub insert_all-append :
    (xs ys : List Candidate) (b : Build) → insert_all ys (insert_all xs b) ≡ insert_all (xs ++ ys) b
unfolding insert_all
insert_all-append [] ys b = refl
insert_all-append (x ∷ xs) ys b = insert_all-append xs ys (insert x b)
