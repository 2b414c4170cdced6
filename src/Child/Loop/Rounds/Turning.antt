-- ===== src/Child/Loop/Rounds/Turning.antt =====
-- The turns of the engines, one after another: the loop over the engines of src/child/mnm_engine.cpp.
use schwung_monomodule.Prelude.{
  ℕ, zero, suc, ◌+◌, ◌<◌, ◌≡◌, ◌∙◌, refl, ap, subst, Bool, true, false, ◌&&◌, List, [], ◌∷◌,
  get_elem?, if◌then◌else◌, some, update, update_self, update_ne, arith,
}
use schwung_monomodule.Prelude.Int.{ℤ}
use schwung_monomodule.Shm.{EngineStats}
use schwung_monomodule.Plugin.Convert.{map_some}
use schwung_monomodule.Child.Engine.{Engine}
use schwung_monomodule.Child.Block.{RenderOps, Rendered, turn}
use schwung_monomodule.Child.Loop.{Turns, count_turn, turns}

not_exited :
    {V : Type 0} (b : Bool) (x y : Turns V)
    → x.exited ≡ true
    → (if b then x else y).exited ≡ false
    → y ≡ (if b then x else y)
not_exited true x y e h = ground (arith, e, h)
not_exited false x y e h = refl

module _ {V : Type 0} (render : RenderOps V) (fx : Bool) (input : List ℤ) (us : ℕ → ℕ) where
  -- What the turns of the engines `es`, from number `k` on, leave of the blocks `out`: each engine has
  -- had its turn, and its block is there.
  pub record Turned (es : List (Engine V)) (k : ℕ) (out : ℕ → List ℤ) (t : Turns V) : Type 0 where
    pub turned :
        (i : ℕ)
        → get_elem? t.engines i ≡ map_some (λ e. (turn render fx input e).engine) (get_elem? es i)
    pub shown :
        (i j : ℕ) (e : Engine V)
        → k + i ≡ j
        → get_elem? es i ≡ some e
        → t.out j ≡ (turn render fx input e).out
    pub before : (j : ℕ) → j < k → t.out j ≡ out j

  pub turns-Turned :
      (es : List (Engine V)) (k : ℕ) (stats : ℕ → EngineStats) (out : ℕ → List ℤ)
      → (turns render fx input us k es stats out).exited ≡ false
      → Turned es k out (turns render fx input us k es stats out)
  unfolding turns
  turns-Turned [] k stats out h = record {
    turned = λ i. refl;
    shown = λ i j e q n. ground (arith, n);
    before = λ j l. refl;
  }
  turns-Turned (e ∷ es) k stats out h =
      let same = not_exited _ _ _ refl h in
      subst (Turned (e ∷ es) k out) same
        (extend _ (turns-Turned es (suc k) _ _ (ap (λ (t : Turns V). t.exited) same ∙ h)))
    where
      extend :
          (t : Turns V)
          → Turned es (suc k) (update out k (turn render fx input e).out) t
          → Turned
              (e ∷ es)
              k
              out
              (record t { engines = (turn render fx input e).engine ∷ t.engines })
      extend t r = record {
        turned = λ i. elem i;
        shown = λ i j f q n. block i j f q n;
        before = λ j l.
            r.before j (omega arith)
            ∙ update_ne out k j (turn render fx input e).out (λ q. omega arith);
      }
        where
          elem :
              (i : ℕ)
              → get_elem? ((turn render fx input e).engine ∷ t.engines) i
                ≡ map_some (λ f. (turn render fx input f).engine) (get_elem? (e ∷ es) i)
          elem zero = refl
          elem (suc i) = r.turned i

          block :
              (i j : ℕ) (f : Engine V)
              → k + i ≡ j
              → get_elem? (e ∷ es) i ≡ some f
              → t.out j ≡ (turn render fx input f).out
          block zero j f q n =
              let here : k ≡ j = omega arith in
              rw (← here) (
                r.before k (omega arith)
                ∙ (update_self out k k (turn render fx input e).out refl
                    ∙ ap (λ g. (turn render fx input g).out) (ground (arith, n))))
          block (suc i) j f q n = r.shown i j f (omega arith) n

  -- The process exits for an engine whose statistics say that it has faulted.
  pub turns-faulted :
      (es : List (Engine V)) (k : ℕ) (stats : ℕ → EngineStats) (out : ℕ → List ℤ)
      → (turns render fx input us k es stats out).exited ≡ true
      → (j : ℕ) × (((turns render fx input us k es stats out).stats j).faulted ≡ 1)
  unfolding turns
  turns-faulted [] k stats out h = ground (arith, h)
  turns-faulted (e ∷ es) k stats out h =
      split (r.ran && render.faulted r.engine.voice) _ (turns-faulted es (suc k) _ _) h
    where
      r : Rendered V
      r = turn render fx input e

      split :
          (b : Bool) (rest : Turns V)
          → (rest.exited ≡ true → (j : ℕ) × ((rest.stats j).faulted ≡ 1))
          → (if b
              then record {
                engines = r.engine ∷ es;
                stats =
                    update stats k
                      (record (count_turn e.parked r (us k) (stats k)) { faulted = 1 });
                out = update out k r.out;
                exited = true;
              }
              else record rest { engines = r.engine ∷ rest.engines }).exited
            ≡ true
          → (j : ℕ) × (((if b
                  then record {
                    engines = r.engine ∷ es;
                    stats =
                        update stats k
                          (record (count_turn e.parked r (us k) (stats k)) { faulted = 1 });
                    out = update out k r.out;
                    exited = true;
                  }
                  else record rest { engines = r.engine ∷ rest.engines }).stats
                j).faulted
              ≡ 1)
      split true rest f h =
          (k, ap (λ (st : EngineStats). st.faulted) (update_self stats k k _ refl))
      split false rest f h = f h
