-- ===== src/Ui/Fx/Values.antt =====
-- The lists of values that src/plugin/generated/mnm_ui.h names for the effect build (kFXVals).
use schwung_monomodule.Prelude.{List, [], ◌∷◌}
use schwung_monomodule.Text.{Bytes, codes}

abbrev pub lfo1_page : List Bytes
lfo1_page =
    codes "PTCH"
    ∷ codes "SYNT"
    ∷ codes "AMP"
    ∷ codes "FILT"
    ∷ codes "EFFX"
    ∷ codes "LFO1"
    ∷ codes "LFO2"
    ∷ codes "LFO3"
    ∷ codes "MIDI"
    ∷ []

abbrev pub lfo1_dest_ptch : List Bytes
lfo1_dest_ptch =
    codes "1/12"
    ∷ codes "2/12"
    ∷ codes "7/12"
    ∷ codes "1OCT"
    ∷ codes "2OCT"
    ∷ codes "4OCT"
    ∷ codes "8OCT"
    ∷ codes "16OC"
    ∷ []

abbrev pub lfo1_dest_synt : List Bytes
lfo1_dest_synt =
    codes "PAR1"
    ∷ codes "PAR2"
    ∷ codes "PAR3"
    ∷ codes "PAR4"
    ∷ codes "PAR5"
    ∷ codes "PAR6"
    ∷ codes "PAR7"
    ∷ codes "PAR8"
    ∷ []

abbrev pub lfo1_dest_amp : List Bytes
lfo1_dest_amp =
    codes "ATK"
    ∷ codes "HOLD"
    ∷ codes "DEC"
    ∷ codes "REL"
    ∷ codes "DIST"
    ∷ codes "VOL"
    ∷ codes "PAN"
    ∷ codes "PORT"
    ∷ []

abbrev pub lfo1_dest_filt : List Bytes
lfo1_dest_filt =
    codes "BASE"
    ∷ codes "WDTH"
    ∷ codes "HPQ"
    ∷ codes "LPQ"
    ∷ codes "ATK"
    ∷ codes "DEC"
    ∷ codes "BOFS"
    ∷ codes "WOFS"
    ∷ []

abbrev pub lfo1_dest_effx : List Bytes
lfo1_dest_effx =
    codes "EQF"
    ∷ codes "EQG"
    ∷ codes "SRR"
    ∷ codes "DTIM"
    ∷ codes "DSND"
    ∷ codes "DFB"
    ∷ codes "DBAS"
    ∷ codes "DWID"
    ∷ []

abbrev pub lfo1_dest_lfo1 : List Bytes
lfo1_dest_lfo1 =
    codes "PAGE"
    ∷ codes "DEST"
    ∷ codes "TRIG"
    ∷ codes "WAVE"
    ∷ codes "MULT"
    ∷ codes "SPD"
    ∷ codes "INTL"
    ∷ codes "DPTH"
    ∷ []

abbrev pub lfo1_dest_lfo2 : List Bytes
lfo1_dest_lfo2 =
    codes "PAGE"
    ∷ codes "DEST"
    ∷ codes "TRIG"
    ∷ codes "WAVE"
    ∷ codes "MULT"
    ∷ codes "SPD"
    ∷ codes "INTL"
    ∷ codes "DPTH"
    ∷ []

abbrev pub lfo1_dest_lfo3 : List Bytes
lfo1_dest_lfo3 =
    codes "PAGE"
    ∷ codes "DEST"
    ∷ codes "TRIG"
    ∷ codes "WAVE"
    ∷ codes "MULT"
    ∷ codes "SPD"
    ∷ codes "INTL"
    ∷ codes "DPTH"
    ∷ []

abbrev pub lfo1_dest_midi : List Bytes
lfo1_dest_midi =
    codes "LEN"
    ∷ codes "VEL"
    ∷ codes "PB"
    ∷ codes "PCHG"
    ∷ codes "CC 1"
    ∷ codes "CC 2"
    ∷ codes "CC 3"
    ∷ codes "CC 4"
    ∷ []

abbrev pub lfo1_trig : List Bytes
lfo1_trig = codes "FREE" ∷ codes "TRIG" ∷ codes "HOLD" ∷ codes "ONE" ∷ codes "HALF" ∷ []

abbrev pub lfo1_wave : List Bytes
lfo1_wave =
    codes "TRI"
    ∷ codes "ITRI"
    ∷ codes "SAW"
    ∷ codes "ISAW"
    ∷ codes "SQR"
    ∷ codes "ISQR"
    ∷ codes "EXP"
    ∷ codes "IEXP"
    ∷ codes "RMP"
    ∷ codes "IRMP"
    ∷ codes "RND"
    ∷ []

abbrev pub lfo1_mult : List Bytes
lfo1_mult =
    codes "1X" ∷ codes "2X" ∷ codes "4X" ∷ codes "8X" ∷ codes "16X" ∷ codes "32X" ∷ codes "64X" ∷ []

abbrev pub lfo2_page : List Bytes
lfo2_page =
    codes "PTCH"
    ∷ codes "SYNT"
    ∷ codes "AMP"
    ∷ codes "FILT"
    ∷ codes "EFFX"
    ∷ codes "LFO1"
    ∷ codes "LFO2"
    ∷ codes "LFO3"
    ∷ codes "MIDI"
    ∷ []

abbrev pub lfo2_dest_ptch : List Bytes
lfo2_dest_ptch =
    codes "1/12"
    ∷ codes "2/12"
    ∷ codes "7/12"
    ∷ codes "1OCT"
    ∷ codes "2OCT"
    ∷ codes "4OCT"
    ∷ codes "8OCT"
    ∷ codes "16OC"
    ∷ []

abbrev pub lfo2_dest_synt : List Bytes
lfo2_dest_synt =
    codes "PAR1"
    ∷ codes "PAR2"
    ∷ codes "PAR3"
    ∷ codes "PAR4"
    ∷ codes "PAR5"
    ∷ codes "PAR6"
    ∷ codes "PAR7"
    ∷ codes "PAR8"
    ∷ []

abbrev pub lfo2_dest_amp : List Bytes
lfo2_dest_amp =
    codes "ATK"
    ∷ codes "HOLD"
    ∷ codes "DEC"
    ∷ codes "REL"
    ∷ codes "DIST"
    ∷ codes "VOL"
    ∷ codes "PAN"
    ∷ codes "PORT"
    ∷ []

abbrev pub lfo2_dest_filt : List Bytes
lfo2_dest_filt =
    codes "BASE"
    ∷ codes "WDTH"
    ∷ codes "HPQ"
    ∷ codes "LPQ"
    ∷ codes "ATK"
    ∷ codes "DEC"
    ∷ codes "BOFS"
    ∷ codes "WOFS"
    ∷ []

abbrev pub lfo2_dest_effx : List Bytes
lfo2_dest_effx =
    codes "EQF"
    ∷ codes "EQG"
    ∷ codes "SRR"
    ∷ codes "DTIM"
    ∷ codes "DSND"
    ∷ codes "DFB"
    ∷ codes "DBAS"
    ∷ codes "DWID"
    ∷ []

abbrev pub lfo2_dest_lfo1 : List Bytes
lfo2_dest_lfo1 =
    codes "PAGE"
    ∷ codes "DEST"
    ∷ codes "TRIG"
    ∷ codes "WAVE"
    ∷ codes "MULT"
    ∷ codes "SPD"
    ∷ codes "INTL"
    ∷ codes "DPTH"
    ∷ []

abbrev pub lfo2_dest_lfo2 : List Bytes
lfo2_dest_lfo2 =
    codes "PAGE"
    ∷ codes "DEST"
    ∷ codes "TRIG"
    ∷ codes "WAVE"
    ∷ codes "MULT"
    ∷ codes "SPD"
    ∷ codes "INTL"
    ∷ codes "DPTH"
    ∷ []

abbrev pub lfo2_dest_lfo3 : List Bytes
lfo2_dest_lfo3 =
    codes "PAGE"
    ∷ codes "DEST"
    ∷ codes "TRIG"
    ∷ codes "WAVE"
    ∷ codes "MULT"
    ∷ codes "SPD"
    ∷ codes "INTL"
    ∷ codes "DPTH"
    ∷ []

abbrev pub lfo2_dest_midi : List Bytes
lfo2_dest_midi =
    codes "LEN"
    ∷ codes "VEL"
    ∷ codes "PB"
    ∷ codes "PCHG"
    ∷ codes "CC 1"
    ∷ codes "CC 2"
    ∷ codes "CC 3"
    ∷ codes "CC 4"
    ∷ []

abbrev pub lfo2_trig : List Bytes
lfo2_trig = codes "FREE" ∷ codes "TRIG" ∷ codes "HOLD" ∷ codes "ONE" ∷ codes "HALF" ∷ []

abbrev pub lfo2_wave : List Bytes
lfo2_wave =
    codes "TRI"
    ∷ codes "ITRI"
    ∷ codes "SAW"
    ∷ codes "ISAW"
    ∷ codes "SQR"
    ∷ codes "ISQR"
    ∷ codes "EXP"
    ∷ codes "IEXP"
    ∷ codes "RMP"
    ∷ codes "IRMP"
    ∷ codes "RND"
    ∷ []

abbrev pub lfo2_mult : List Bytes
lfo2_mult =
    codes "1X" ∷ codes "2X" ∷ codes "4X" ∷ codes "8X" ∷ codes "16X" ∷ codes "32X" ∷ codes "64X" ∷ []

abbrev pub lfo3_page : List Bytes
lfo3_page =
    codes "PTCH"
    ∷ codes "SYNT"
    ∷ codes "AMP"
    ∷ codes "FILT"
    ∷ codes "EFFX"
    ∷ codes "LFO1"
    ∷ codes "LFO2"
    ∷ codes "LFO3"
    ∷ codes "MIDI"
    ∷ []

abbrev pub lfo3_dest_ptch : List Bytes
lfo3_dest_ptch =
    codes "1/12"
    ∷ codes "2/12"
    ∷ codes "7/12"
    ∷ codes "1OCT"
    ∷ codes "2OCT"
    ∷ codes "4OCT"
    ∷ codes "8OCT"
    ∷ codes "16OC"
    ∷ []

abbrev pub lfo3_dest_synt : List Bytes
lfo3_dest_synt =
    codes "PAR1"
    ∷ codes "PAR2"
    ∷ codes "PAR3"
    ∷ codes "PAR4"
    ∷ codes "PAR5"
    ∷ codes "PAR6"
    ∷ codes "PAR7"
    ∷ codes "PAR8"
    ∷ []

abbrev pub lfo3_dest_amp : List Bytes
lfo3_dest_amp =
    codes "ATK"
    ∷ codes "HOLD"
    ∷ codes "DEC"
    ∷ codes "REL"
    ∷ codes "DIST"
    ∷ codes "VOL"
    ∷ codes "PAN"
    ∷ codes "PORT"
    ∷ []

abbrev pub lfo3_dest_filt : List Bytes
lfo3_dest_filt =
    codes "BASE"
    ∷ codes "WDTH"
    ∷ codes "HPQ"
    ∷ codes "LPQ"
    ∷ codes "ATK"
    ∷ codes "DEC"
    ∷ codes "BOFS"
    ∷ codes "WOFS"
    ∷ []

abbrev pub lfo3_dest_effx : List Bytes
lfo3_dest_effx =
    codes "EQF"
    ∷ codes "EQG"
    ∷ codes "SRR"
    ∷ codes "DTIM"
    ∷ codes "DSND"
    ∷ codes "DFB"
    ∷ codes "DBAS"
    ∷ codes "DWID"
    ∷ []

abbrev pub lfo3_dest_lfo1 : List Bytes
lfo3_dest_lfo1 =
    codes "PAGE"
    ∷ codes "DEST"
    ∷ codes "TRIG"
    ∷ codes "WAVE"
    ∷ codes "MULT"
    ∷ codes "SPD"
    ∷ codes "INTL"
    ∷ codes "DPTH"
    ∷ []

abbrev pub lfo3_dest_lfo2 : List Bytes
lfo3_dest_lfo2 =
    codes "PAGE"
    ∷ codes "DEST"
    ∷ codes "TRIG"
    ∷ codes "WAVE"
    ∷ codes "MULT"
    ∷ codes "SPD"
    ∷ codes "INTL"
    ∷ codes "DPTH"
    ∷ []

abbrev pub lfo3_dest_lfo3 : List Bytes
lfo3_dest_lfo3 =
    codes "PAGE"
    ∷ codes "DEST"
    ∷ codes "TRIG"
    ∷ codes "WAVE"
    ∷ codes "MULT"
    ∷ codes "SPD"
    ∷ codes "INTL"
    ∷ codes "DPTH"
    ∷ []

abbrev pub lfo3_dest_midi : List Bytes
lfo3_dest_midi =
    codes "LEN"
    ∷ codes "VEL"
    ∷ codes "PB"
    ∷ codes "PCHG"
    ∷ codes "CC 1"
    ∷ codes "CC 2"
    ∷ codes "CC 3"
    ∷ codes "CC 4"
    ∷ []

abbrev pub lfo3_trig : List Bytes
lfo3_trig = codes "FREE" ∷ codes "TRIG" ∷ codes "HOLD" ∷ codes "ONE" ∷ codes "HALF" ∷ []

abbrev pub lfo3_wave : List Bytes
lfo3_wave =
    codes "TRI"
    ∷ codes "ITRI"
    ∷ codes "SAW"
    ∷ codes "ISAW"
    ∷ codes "SQR"
    ∷ codes "ISQR"
    ∷ codes "EXP"
    ∷ codes "IEXP"
    ∷ codes "RMP"
    ∷ codes "IRMP"
    ∷ codes "RND"
    ∷ []

abbrev pub lfo3_mult : List Bytes
lfo3_mult =
    codes "1X" ∷ codes "2X" ∷ codes "4X" ∷ codes "8X" ∷ codes "16X" ∷ codes "32X" ∷ codes "64X" ∷ []
