-- ===== src/Ui/Fx/Syn.antt =====
-- The rows of the SYN page of kFXParams in src/plugin/generated/mnm_ui.h.
use schwung_monomodule.Prelude.{List, [], ◌∷◌, none}
use schwung_monomodule.Prelude.Int.{pos}
use schwung_monomodule.Text.{codes}
use schwung_monomodule.Ui.{ParamDef, row}

abbrev pub syn_defs : List ParamDef
syn_defs =
    row (codes "thru_inp") 0 7 0 0 (pos 12) 64 none
    ∷ (row (codes "rev_dec") 0 0 0 0 (pos 13) 64 none
        ∷ (row (codes "rev_damp") 0 1 0 0 (pos 13) 2 none
            ∷ (row (codes "rev_gate") 0 2 0 0 (pos 13) 127 none
                ∷ (row (codes "rev_mix") 0 3 0 0 (pos 13) 32 none
                    ∷ (row (codes "rev_hp") 0 4 0 0 (pos 13) 0 none
                        ∷ (row (codes "rev_lp") 0 5 0 0 (pos 13) 127 none
                            ∷ (row (codes "rev_inp") 0 7 0 0 (pos 13) 64 none
                                ∷ (row (codes "cho_del") 0 0 0 0 (pos 15) 64 none
                                    ∷ (row (codes "cho_dep") 0 1 0 0 (pos 15) 64 none
                                        ∷ (row (codes "cho_spd") 0 2 0 0 (pos 15) 64 none
                                            ∷ (row (codes "cho_mix") 0 3 0 0 (pos 15) 127 none
                                                ∷ (row (codes "cho_fb") 0 4 0 0 (pos 15) 0 none
                                                    ∷ (row (codes "cho_wid") 0 5 0 0 (pos 15) 0 none
                                                        ∷ (row (codes "cho_lp") 0 6 0 0 (pos 15) 127
                                                            none
                                                            ∷ (row (codes "cho_inp") 0 7 1 0
                                                            (pos 15) 64 none
                                                            ∷ (row (codes "dyn_atk") 0 0 0 0
                                                            (pos 16) 64 none
                                                            ∷ (row (codes "dyn_rel") 0 1 0 0
                                                            (pos 16) 64 none
                                                            ∷ (row (codes "dyn_thrs") 0 2 0 0
                                                            (pos 16) 64 none
                                                            ∷ (row (codes "dyn_mix") 0 3 0 0
                                                            (pos 16) 127 none
                                                            ∷ (row (codes "dyn_rat") 0 4 0 0
                                                            (pos 16) 0 none
                                                            ∷ (row (codes "dyn_gain") 0 5 0 0
                                                            (pos 16) 0 none
                                                            ∷ (row (codes "dyn_rms") 0 6 0 0
                                                            (pos 16) 0 none
                                                            ∷ (row (codes "dyn_inp") 0 7 1 0
                                                            (pos 16) 64 none
                                                            ∷ (row (codes "ring_wave") 0 0 0 0
                                                            (pos 17) 0 none
                                                            ∷ (row (codes "ring_ext") 0 1 0 0
                                                            (pos 17) 0 none
                                                            ∷ (row (codes "ring_mix") 0 3 0 0
                                                            (pos 17) 0 none
                                                            ∷ (row (codes "ring_inp") 0 7 1 0
                                                            (pos 17) 64 none
                                                            ∷ (row (codes "pha_cntr") 0 0 1 0
                                                            (pos 18) 64 none
                                                            ∷ (row (codes "pha_dep") 0 1 0 0
                                                            (pos 18) 64 none
                                                            ∷ (row (codes "pha_spd") 0 2 0 0
                                                            (pos 18) 64 none
                                                            ∷ (row (codes "pha_mix") 0 3 0 0
                                                            (pos 18) 127 none
                                                            ∷ (row (codes "pha_fb") 0 4 1 0 (pos 18)
                                                            45 none
                                                            ∷ (row (codes "pha_wid") 0 5 0 0
                                                            (pos 18) 0 none
                                                            ∷ (row (codes "pha_inp") 0 7 1 0
                                                            (pos 18) 64 none
                                                            ∷ (row (codes "fla_del") 0 0 0 0
                                                            (pos 19) 64 none
                                                            ∷ (row (codes "fla_dep") 0 1 0 0
                                                            (pos 19) 64 none
                                                            ∷ (row (codes "fla_spd") 0 2 0 0
                                                            (pos 19) 64 none
                                                            ∷ (row (codes "fla_mix") 0 3 0 0
                                                            (pos 19) 127 none
                                                            ∷ (row (codes "fla_fb") 0 4 1 0 (pos 19)
                                                            45 none
                                                            ∷ (row (codes "fla_wid") 0 5 0 0
                                                            (pos 19) 0 none
                                                            ∷ (row (codes "fla_inp") 0 7 1 0
                                                            (pos 19) 64 none
                                                            ∷ ([])))))))))))))))))))))))))))))))))))
                                                            )))))))
