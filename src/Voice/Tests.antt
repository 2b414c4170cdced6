-- ===== src/Voice/Tests.antt =====
-- The theorems about a voice at concrete parts.
use schwung_monomodule.Prelude.{
  length, ◌<◌, ℕ, arith, ◌+◌, ◌≡◌, refl, List, [], ◌∷◌, ◌++◌, some, replicate,
}
use schwung_monomodule.Prelude.Int.{ℤ, pos, negsuc}
use schwung_monomodule.Voice.{
  Parts, Voice, frame_at, nothing, process, feed, process_fx_frame, empty_fifo,
}
use schwung_monomodule.Voice.Blocks.{process_lem, upcoming, IsSteady, process_fx_frame-IsSteady}

-- A host that counts its blocks, and an engine that renders a constant.
abbrev counting : Parts ℕ (List ℤ)
counting = record {
  fresh = 0;
  next_block = λ n. ((n ∷ []), n + 1);
  settle = λ n. n;
  render = λ e w. (some (replicate 32 (pos 7)), e);
  set_input_frames = λ _ xs. xs;
  clear = λ _. [];
}

abbrev empty : Voice ℕ (List ℤ)
empty = record { host = 0; engine = []; fifo = empty_fifo; input = []; position = 0; avail = 0 }

process_lem_example :
    (length (process counting 20 empty).0 ≡ 20)
    × (j : ℕ) × (upcoming counting 2 empty
        ≡ (process counting 20 empty).0 ++ upcoming counting j (process counting 20 empty).1)
process_lem_example = process_lem counting 20 2 empty (omega arith)

-- Fourteen frames of a block have come in, and one is left to go out.
abbrev striding : Voice ℕ (List ℤ)
striding = record empty {
  input = replicate 14 nothing;
  avail = 1;
  position = 15;
  fifo = replicate 32 (negsuc 2);
}

process_fx_frame-IsSteady_example :
    IsSteady counting (process_fx_frame counting striding nothing).1
    × ((process_fx_frame counting striding nothing).0
        ≡ frame_at
            (feed counting striding nothing).fifo
            (length (feed counting striding nothing).input))
    × (length (feed counting striding nothing).input < 16)
process_fx_frame-IsSteady_example =
    process_fx_frame-IsSteady counting striding nothing (record { lag = refl; placed = refl })
