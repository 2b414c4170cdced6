-- ===== src/Voice/Blocks.antt =====
-- The frames that the FIFO of src/engine/MonoVoice.cpp hands out.
use schwung_monomodule.Prelude.{
  ℕ, zero, suc, ◌+◌, ◌-◌, ◌*◌, ◌≤◌, ◌<◌, ◌≡◌, ◌≢◌, ◌∙◌, refl, sym, ap, subst, false, true, List, [],
  ◌∷◌, ◌++◌, arith, length, length-append, ◌==◌, none, some, Option, Bool-cases, inl, inr,
}
use schwung_monomodule.Prelude.Int.{ℤ}
use schwung_monomodule.Voice.{
  Parts, Voice, Frame, block_frames, frame_at, to_dsp, empty_fifo, render_block, process_frame,
  take_frame, process, feed, process_fx_frame, skip,
}

==_positive : (n : ℕ) → 1 ≤ n → n == 0 ≡ false
==_positive n h = ground (arith, h)

==_ne : (a b : ℕ) → a == b ≡ false → a ≢ b
==_ne a b h = ground (arith, h)

-- `n` frames of a FIFO from frame `i` on.
unfoldable pub frames_from : List ℤ → ℕ → ℕ → List Frame
frames_from fifo i zero = []
frames_from fifo i (suc n) = frame_at fifo i ∷ frames_from fifo (i + 1) n

-- The block of an engine's answer: silence where it has failed.
abbrev pub block_of : Option (List ℤ) → List ℤ
block_of out = elim out [ none ↦ empty_fifo | some xs ↦ xs ]

module _ {H E : Type 0} (parts : Parts H E) where
  -- The frames of the next `k` blocks, rendered in a row.
  unfoldable pub blocks : ℕ → H → E → List Frame
  unfolding frames_from
  blocks zero h e = []
  blocks (suc k) h e =
      let (words, g) = parts.next_block h in
      let (out, d) = parts.render e words in
      frames_from (block_of out) 0 block_frames ++ blocks k g d

  -- What is left in the FIFO, and `k` blocks.
  abbrev pub upcoming : ℕ → Voice H E → List Frame
  upcoming k v = frames_from v.fifo v.position v.avail ++ blocks k v.host v.engine

  -- `n` frames taken are the first of those to come.
  abbrev Streams : ℕ → ℕ → Voice H E → Type 0
  Streams n k v =
      (length (process parts n v).0 ≡ n)
      × (j : ℕ) × (upcoming k v ≡ (process parts n v).0 ++ upcoming j (process parts n v).1)

  -- A frame, and the rest.
  one_more :
      (n k l : ℕ) (v : Voice H E)
      → upcoming k v ≡ (process_frame parts v).0 ∷ upcoming l (process_frame parts v).1
      → Streams n l (process_frame parts v).1
      → Streams (suc n) k v
  unfolding process
  one_more n k l v e (m, j, s) = (ap suc m, j, e ∙ ap (λ fs. (process_frame parts v).0 ∷ fs) s)

  still_full : (v : Voice H E) → v.avail == 0 ≡ false → process_frame parts v ≡ take_frame parts v
  unfolding process_frame
  still_full v e = rw e refl

  ran_out :
      (v : Voice H E)
      → v.avail == 0 ≡ true
      → process_frame parts v ≡ take_frame parts (render_block parts v)
  unfolding process_frame
  ran_out v e = rw e refl

  from_fifo :
      (k a : ℕ) (v : Voice H E)
      → v.avail ≡ suc a
      → upcoming k v ≡ (process_frame parts v).0 ∷ upcoming k (process_frame parts v).1
  unfolding frames_from
  from_fifo k a v e =
      ap (λ n. frames_from v.fifo v.position n ++ blocks k v.host v.engine) e
      ∙ ap
          (λ n.
            frame_at v.fifo v.position
            ∷ (frames_from v.fifo (v.position + 1) n ++ blocks k v.host v.engine))
          one_less
      ∙ ap (λ (r : Frame × Voice H E). r.0 ∷ upcoming k r.1) (sym (still_full v some_left))
    where
      one_less : a ≡ v.avail - 1
      one_less = omega (arith, e)

      some_left : v.avail == 0 ≡ false
      some_left = ground (arith, e)

  from_block :
      (k : ℕ) (v : Voice H E)
      → v.avail ≡ 0
      → upcoming (suc k) v ≡ (process_frame parts v).0 ∷ upcoming k (process_frame parts v).1
  unfolding frames_from render_block blocks
  from_block k v e =
      ap (λ n. frames_from v.fifo v.position n ++ blocks (suc k) v.host v.engine) e
      ∙ ap (λ (r : Frame × Voice H E). r.0 ∷ upcoming k r.1) (sym (ran_out v none_left))
    where
      none_left : v.avail == 0 ≡ true
      none_left = ground (arith, e)

  left :
      (n k a : ℕ) (v : Voice H E)
      → v.avail ≡ a
      → ((l : ℕ) (w : Voice H E) → n ≤ w.avail + 16 * l → Streams n l w)
      → suc n ≤ v.avail + 16 * k
      → Streams (suc n) k v
  unfolding process_frame render_block
  left n k (suc a) v e more h =
      one_more n k k v (from_fifo k a v e) (more k (process_frame parts v).1 room)
    where
      room : n ≤ (process_frame parts v).1.avail + 16 * k
      room =
          subst (λ (r : Frame × Voice H E). n ≤ r.1.avail + 16 * k)
            (sym (still_full v (ground (arith, e)))) (omega (arith, e, h))
  left n zero zero v e more h = absurd (omega (arith, e, h))
  left n (suc k) zero v e more h =
      one_more n (suc k) k v (from_block k v e) (more k (process_frame parts v).1 room)
    where
      room : n ≤ (process_frame parts v).1.avail + 16 * k
      room =
          subst (λ (r : Frame × Voice H E). n ≤ r.1.avail + 16 * k)
            (sym (ran_out v (ground (arith, e)))) (omega (arith, e, h))

  -- Of the frames left in the FIFO and those of `k` rendered blocks, `process` of so many hands out the
  -- first, each once and in order: they are `n`, and with what is then left in the FIFO and the blocks
  -- that follow they make up the same frames.
  pub process_lem :
      (n k : ℕ) (v : Voice H E)
      → n ≤ v.avail + 16 * k
      → (length (process parts n v).0 ≡ n)
        × (j : ℕ) × (upcoming k v ≡ (process parts n v).0 ++ upcoming j (process parts n v).1)
  unfolding process
  process_lem zero k v h = (refl, k, refl)
  process_lem (suc n) k v h = left n k v.avail v refl (λ l w. process_lem n l w) h

  -- An effect's voice in its stride: one input block less a frame lies between input and output, and the
  -- next frame out is the one behind the last, which the next in replaces.
  pub record IsSteady (v : Voice H E) : Type 0 where
    pub lag : length v.input + v.avail ≡ 15
    pub placed : v.position + v.avail ≡ 16

  -- With the next frame in, the next out is as far in its block as the input.
  record IsFed (v : Voice H E) : Type 0 where
    pub lag : length v.input + v.avail ≡ 16
    pub placed : v.position + v.avail ≡ 16
    pub filled : 1 ≤ v.avail

  feed-IsFed : (v : Voice H E) (f : Frame) → IsSteady v → IsFed (feed parts v f)
  unfolding feed render_block
  feed-IsFed v (l, r) h =
      let fed = length-append v.input ((to_dsp l, to_dsp r) ∷ []) in
      elim (Bool-cases (length (v.input ++ ((to_dsp l, to_dsp r) ∷ [])) == block_frames)) [
        | inl e ↦ rw e (record { lag = refl; placed = refl; filled = omega arith })
        | inr e ↦ rw e (record {
          lag = omega (arith, fed, h.lag);
          placed = h.placed;
          filled = omega (
            arith,
            fed,
            h.lag,
            ==_ne (length (v.input ++ ((to_dsp l, to_dsp r) ∷ []))) block_frames e,
          );
        })
      ]

  -- In its stride, an effect's voice puts out, for every frame that goes in, the frame of its rendered
  -- block at the place that the input has reached in its own, one of the 16 of the block and never the
  -- silence of an empty FIFO, and stays in its stride.
  pub process_fx_frame-IsSteady :
      (v : Voice H E) (f : Frame)
      → IsSteady v
      → IsSteady (process_fx_frame parts v f).1
        × ((process_fx_frame parts v f).0
            ≡ frame_at (feed parts v f).fifo (length (feed parts v f).input))
        × (length (feed parts v f).input < 16)
  unfolding process_fx_frame
  process_fx_frame-IsSteady v (l, r) h =
      let k = feed-IsFed v (l, r) h in
      rw (==_positive (feed parts v (l, r)).avail k.filled) (
        record { lag = omega (arith, k.lag, k.filled); placed = omega (arith, k.placed, k.filled) },
        ap (frame_at (feed parts v (l, r)).fifo) (place k),
        omega (arith, k.lag, k.filled),
      )
    where
      place :
          IsFed (feed parts v (l, r))
          → (feed parts v (l, r)).position ≡ length (feed parts v (l, r)).input
      place k = omega (arith, k.lag, k.placed)

  -- Nor does parking an effect take its voice out of its stride.
  pub skip-IsSteady : (frames : ℕ) (v : Voice H E) → IsSteady v → IsSteady (skip parts frames v)
  unfolding skip
  skip-IsSteady frames v h = record { lag = h.lag; placed = h.placed }
