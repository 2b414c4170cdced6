-- ===== src/Child/Loop/Rounds/Commands.antt =====
-- The commands of a round reach their engines: the command loop of src/child/mnm_engine.cpp.
use schwung_monomodule.Prelude.{
  ℕ, zero, suc, ◌≡◌, ◌∙◌, refl, sym, ap, subst, List, [], ◌∷◌, get_elem?, set, foldl, ◌==◌,
  if◌then◌else◌, Option, none, some, update, arith, Bool-cases, inl, inr, ==_iff,
}
use schwung_monomodule.Shm.{Cmd, EngineStats}
use schwung_monomodule.Plugin.Convert.{map_some}
use schwung_monomodule.Child.Engine.{Engine, VoiceOps, take_cmd}
use schwung_monomodule.Child.Engine.Replayed.{take_all}
use schwung_monomodule.Child.Loop.{is_set_machine, take}

-- The commands for engine `k`, in their order.
unfoldable pub own : ℕ → List Cmd → List Cmd
own k [] = []
own k (c ∷ cs) = if c.engine == k then c ∷ own k cs else own k cs

same_suc : (i j : ℕ) → (suc i == suc j) ≡ (i == j)
same_suc i j = ground arith

get_elem?-set {ℓ} :
    {A : Type ℓ} (xs : List A) (i j : ℕ) (a b : A)
    → get_elem? xs i ≡ some a
    → get_elem? (set xs i b) j ≡ (if i == j then some b else get_elem? xs j)
get_elem?-set [] i j a b h = ground (arith, h)
get_elem?-set (x ∷ xs) zero zero a b h = refl
get_elem?-set (x ∷ xs) zero (suc j) a b h = ground arith
get_elem?-set (x ∷ xs) (suc i) zero a b h = ground arith
get_elem?-set (x ∷ xs) (suc i) (suc j) a b h = rw (same_suc i j) (get_elem?-set xs i j a b h)

map_some-id : {A : Type 0} (o : Option A) → map_some (λ x. x) o ≡ o
map_some-id none = refl
map_some-id (some x) = refl

module _ {V : Type 0} (ops : VoiceOps V) where
  abbrev told : ℕ → List Cmd → Engine V → Engine V
  told k cs e = take_all ops e (own k cs)

  -- A command reaches its engine only.
  take-elem :
      (es : List (Engine V)) (stats : ℕ → EngineStats) (c : Cmd) (k : ℕ)
      → get_elem? (take ops (es, stats) c).0 k ≡ map_some (told k (c ∷ [])) (get_elem? es k)
  unfolding take take_all own
  take-elem es stats c k = addressed (get_elem? es c.engine) refl
    where
      addressed :
          (o : Option (Engine V))
          → get_elem? es c.engine ≡ o
          → get_elem?
              (elim o as (λ _. List (Engine V) × (ℕ → EngineStats)) [
                | none ↦ (es, stats)
                | some e ↦ (
                  set es c.engine (take_cmd ops e c),
                  if is_set_machine c.op
                      then update stats c.engine (record (stats c.engine) { max_us = 0 })
                      else stats,
                )
              ]).0
              k
            ≡ map_some
                (λ e. foldl (take_cmd ops) e (if c.engine == k then c ∷ [] else []))
                (get_elem? es k)
      addressed none h = elim (Bool-cases (c.engine == k)) [
        | inl q ↦ rw (subst (λ j. get_elem? es j ≡ none) ((==_iff c.engine k).0 q) h) refl
        | inr q ↦ rw q (sym (map_some-id (get_elem? es k)))
      ]
      addressed (some e) h = elim (Bool-cases (c.engine == k)) [
        | inl q ↦
            rw
              (
                get_elem?-set es c.engine k e (take_cmd ops e c) h,
                q,
                subst (λ j. get_elem? es j ≡ some e) ((==_iff c.engine k).0 q) h,
              )
              refl
        | inr q ↦
            rw (get_elem?-set es c.engine k e (take_cmd ops e c) h, q)
              (sym (map_some-id (get_elem? es k)))
      ]

  told-cons :
      (k : ℕ) (c : Cmd) (cs : List Cmd) (e : Engine V)
      → told k cs (told k (c ∷ []) e) ≡ told k (c ∷ cs) e
  unfolding take_all own
  told-cons k c cs e = elim (Bool-cases (c.engine == k)) [ inl q ↦ rw q refl | inr q ↦ rw q refl ]

  -- Each engine takes its own commands, in their order.
  pub take-foldl :
      (cs : List Cmd) (s : List (Engine V) × (ℕ → EngineStats)) (k : ℕ)
      → get_elem? (foldl (take ops) s cs).0 k ≡ map_some (told k cs) (get_elem? s.0 k)
  unfolding take_all own
  take-foldl [] s k = sym (map_some-id (get_elem? s.0 k))
  take-foldl (c ∷ cs) (es, stats) k =
      take-foldl cs (take ops (es, stats) c) k
      ∙ (ap (map_some (told k cs)) (take-elem es stats c k) ∙ merged (get_elem? es k))
    where
      merged :
          (o : Option (Engine V))
          → map_some (told k cs) (map_some (told k (c ∷ [])) o) ≡ map_some (told k (c ∷ cs)) o
      merged none = refl
      merged (some e) = ap some (told-cons k c cs e)
