-- ===== src/Ui/Fx/Pages.antt =====
-- The rows of the other pages of kFXParams in src/plugin/generated/mnm_ui.h.
use schwung_monomodule.Prelude.{List, [], ◌∷◌, none, some}
use schwung_monomodule.Prelude.Int.{negsuc}
use schwung_monomodule.Text.{codes}
use schwung_monomodule.Ui.{ParamDef, row}
use schwung_monomodule.Ui.Fx.Values.{
  lfo1_dest_amp, lfo1_dest_effx, lfo1_dest_filt, lfo1_dest_lfo1, lfo1_dest_lfo2, lfo1_dest_lfo3,
  lfo1_dest_midi, lfo1_dest_ptch, lfo1_dest_synt, lfo1_mult, lfo1_page, lfo1_trig, lfo1_wave,
  lfo2_dest_amp, lfo2_dest_effx, lfo2_dest_filt, lfo2_dest_lfo1, lfo2_dest_lfo2, lfo2_dest_lfo3,
  lfo2_dest_midi, lfo2_dest_ptch, lfo2_dest_synt, lfo2_mult, lfo2_page, lfo2_trig, lfo2_wave,
  lfo3_dest_amp, lfo3_dest_effx, lfo3_dest_filt, lfo3_dest_lfo1, lfo3_dest_lfo2, lfo3_dest_lfo3,
  lfo3_dest_midi, lfo3_dest_ptch, lfo3_dest_synt, lfo3_mult, lfo3_page, lfo3_trig, lfo3_wave,
}

abbrev pub page_defs : List ParamDef
page_defs =
    row (codes "amp_atk") 1 0 0 0 (negsuc 0) 0 none
    ∷ (row (codes "amp_hold") 1 1 0 0 (negsuc 0) 0 none
        ∷ (row (codes "amp_dec") 1 2 0 0 (negsuc 0) 127 none
            ∷ (row (codes "amp_rel") 1 3 0 0 (negsuc 0) 127 none
                ∷ (row (codes "amp_dist") 1 4 1 0 (negsuc 0) 64 none
                    ∷ (row (codes "amp_vol") 1 5 0 0 (negsuc 0) 64 none
                        ∷ (row (codes "amp_pan") 1 6 1 0 (negsuc 0) 64 none
                            ∷ (row (codes "amp_port") 1 7 0 0 (negsuc 0) 0 none
                                ∷ (row (codes "filt_base") 2 0 0 0 (negsuc 0) 0 none
                                    ∷ (row (codes "filt_wdth") 2 1 0 0 (negsuc 0) 127 none
                                        ∷ (row (codes "filt_hpq") 2 2 0 0 (negsuc 0) 0 none
                                            ∷ (row (codes "filt_lpq") 2 3 0 0 (negsuc 0) 0 none
                                                ∷ (row (codes "filt_atk") 2 4 0 0 (negsuc 0) 0 none
                                                    ∷ (row (codes "filt_dec") 2 5 0 0 (negsuc 0) 32
                                                          none
                                                        ∷ (row (codes "filt_bofs") 2 6 1 0
                                                            (negsuc 0) 64 none
                                                            ∷ (row (codes "filt_wofs") 2 7 1 0
                                                            (negsuc 0) 64 none
                                                            ∷ (row (codes "efx_eqf") 3 0 0 0
                                                            (negsuc 0) 64 none
                                                            ∷ (row (codes "efx_eqg") 3 1 1 0
                                                            (negsuc 0) 64 none
                                                            ∷ (row (codes "efx_srr") 3 2 0 0
                                                            (negsuc 0) 0 none
                                                            ∷ (row (codes "efx_dtim") 3 3 0 0
                                                            (negsuc 0) 64 none
                                                            ∷ (row (codes "efx_dsnd") 3 4 1 0
                                                            (negsuc 0) 64 none
                                                            ∷ (row (codes "efx_dfb") 3 5 0 0
                                                            (negsuc 0) 28 none
                                                            ∷ (row (codes "efx_dbas") 3 6 0 0
                                                            (negsuc 0) 0 none
                                                            ∷ (row (codes "efx_dwid") 3 7 0 0
                                                            (negsuc 0) 127 none
                                                            ∷ (row (codes "lfo1_page") 4 0 2 9
                                                            (negsuc 0) 0 (some lfo1_page)
                                                            ∷ (row (codes "lfo1_dest_ptch") 4 1 2 8
                                                            (negsuc 0) 64 (some lfo1_dest_ptch)
                                                            ∷ (row (codes "lfo1_dest_synt") 4 1 4 8
                                                            (negsuc 0) 64 (some lfo1_dest_synt)
                                                            ∷ (row (codes "lfo1_dest_amp") 4 1 2 8
                                                            (negsuc 0) 64 (some lfo1_dest_amp)
                                                            ∷ (row (codes "lfo1_dest_filt") 4 1 2 8
                                                            (negsuc 0) 64 (some lfo1_dest_filt)
                                                            ∷ (row (codes "lfo1_dest_effx") 4 1 2 8
                                                            (negsuc 0) 64 (some lfo1_dest_effx)
                                                            ∷ (row (codes "lfo1_dest_lfo1") 4 1 2 8
                                                            (negsuc 0) 64 (some lfo1_dest_lfo1)
                                                            ∷ (row (codes "lfo1_dest_lfo2") 4 1 2 8
                                                            (negsuc 0) 64 (some lfo1_dest_lfo2)
                                                            ∷ (row (codes "lfo1_dest_lfo3") 4 1 2 8
                                                            (negsuc 0) 64 (some lfo1_dest_lfo3)
                                                            ∷ (row (codes "lfo1_dest_midi") 4 1 2 8
                                                            (negsuc 0) 64 (some lfo1_dest_midi)
                                                            ∷ (row (codes "lfo1_trig") 4 2 2 5
                                                            (negsuc 0) 0 (some lfo1_trig)
                                                            ∷ (row (codes "lfo1_wave") 4 3 2 11
                                                            (negsuc 0) 0 (some lfo1_wave)
                                                            ∷ (row (codes "lfo1_mult") 4 4 2 7
                                                            (negsuc 0) 1 (some lfo1_mult)
                                                            ∷ (row (codes "lfo1_spd") 4 5 0 0
                                                            (negsuc 0) 64 none
                                                            ∷ (row (codes "lfo1_intl") 4 6 0 0
                                                            (negsuc 0) 0 none
                                                            ∷ (row (codes "lfo1_dpth") 4 7 0 0
                                                            (negsuc 0) 0 none
                                                            ∷ (row (codes "lfo2_page") 5 0 2 9
                                                            (negsuc 0) 0 (some lfo2_page)
                                                            ∷ (row (codes "lfo2_dest_ptch") 5 1 2 8
                                                            (negsuc 0) 64 (some lfo2_dest_ptch)
                                                            ∷ (row (codes "lfo2_dest_synt") 5 1 4 8
                                                            (negsuc 0) 64 (some lfo2_dest_synt)
                                                            ∷ (row (codes "lfo2_dest_amp") 5 1 2 8
                                                            (negsuc 0) 64 (some lfo2_dest_amp)
                                                            ∷ (row (codes "lfo2_dest_filt") 5 1 2 8
                                                            (negsuc 0) 64 (some lfo2_dest_filt)
                                                            ∷ (row (codes "lfo2_dest_effx") 5 1 2 8
                                                            (negsuc 0) 64 (some lfo2_dest_effx)
                                                            ∷ (row (codes "lfo2_dest_lfo1") 5 1 2 8
                                                            (negsuc 0) 64 (some lfo2_dest_lfo1)
                                                            ∷ (row (codes "lfo2_dest_lfo2") 5 1 2 8
                                                            (negsuc 0) 64 (some lfo2_dest_lfo2)
                                                            ∷ (row (codes "lfo2_dest_lfo3") 5 1 2 8
                                                            (negsuc 0) 64 (some lfo2_dest_lfo3)
                                                            ∷ (row (codes "lfo2_dest_midi") 5 1 2 8
                                                            (negsuc 0) 64 (some lfo2_dest_midi)
                                                            ∷ (row (codes "lfo2_trig") 5 2 2 5
                                                            (negsuc 0) 0 (some lfo2_trig)
                                                            ∷ (row (codes "lfo2_wave") 5 3 2 11
                                                            (negsuc 0) 0 (some lfo2_wave)
                                                            ∷ (row (codes "lfo2_mult") 5 4 2 7
                                                            (negsuc 0) 1 (some lfo2_mult)
                                                            ∷ (row (codes "lfo2_spd") 5 5 0 0
                                                            (negsuc 0) 64 none
                                                            ∷ (row (codes "lfo2_intl") 5 6 0 0
                                                            (negsuc 0) 0 none
                                                            ∷ (row (codes "lfo2_dpth") 5 7 0 0
                                                            (negsuc 0) 0 none
                                                            ∷ (row (codes "lfo3_page") 6 0 2 9
                                                            (negsuc 0) 0 (some lfo3_page)
                                                            ∷ (row (codes "lfo3_dest_ptch") 6 1 2 8
                                                            (negsuc 0) 64 (some lfo3_dest_ptch)
                                                            ∷ (row (codes "lfo3_dest_synt") 6 1 4 8
                                                            (negsuc 0) 64 (some lfo3_dest_synt)
                                                            ∷ (row (codes "lfo3_dest_amp") 6 1 2 8
                                                            (negsuc 0) 64 (some lfo3_dest_amp)
                                                            ∷ (row (codes "lfo3_dest_filt") 6 1 2 8
                                                            (negsuc 0) 64 (some lfo3_dest_filt)
                                                            ∷ (row (codes "lfo3_dest_effx") 6 1 2 8
                                                            (negsuc 0) 64 (some lfo3_dest_effx)
                                                            ∷ (row (codes "lfo3_dest_lfo1") 6 1 2 8
                                                            (negsuc 0) 64 (some lfo3_dest_lfo1)
                                                            ∷ (row (codes "lfo3_dest_lfo2") 6 1 2 8
                                                            (negsuc 0) 64 (some lfo3_dest_lfo2)
                                                            ∷ (row (codes "lfo3_dest_lfo3") 6 1 2 8
                                                            (negsuc 0) 64 (some lfo3_dest_lfo3)
                                                            ∷ (row (codes "lfo3_dest_midi") 6 1 2 8
                                                            (negsuc 0) 64 (some lfo3_dest_midi)
                                                            ∷ (row (codes "lfo3_trig") 6 2 2 5
                                                            (negsuc 0) 0 (some lfo3_trig)
                                                            ∷ (row (codes "lfo3_wave") 6 3 2 11
                                                            (negsuc 0) 0 (some lfo3_wave)
                                                            ∷ (row (codes "lfo3_mult") 6 4 2 7
                                                            (negsuc 0) 1 (some lfo3_mult)
                                                            ∷ (row (codes "lfo3_spd") 6 5 0 0
                                                            (negsuc 0) 64 none
                                                            ∷ (row (codes "lfo3_intl") 6 6 0 0
                                                            (negsuc 0) 0 none
                                                            ∷ (row (codes "lfo3_dpth") 6 7 0 0
                                                            (negsuc 0) 0 none
                                                            ∷ ([])))))))))))))))))))))))))))))))))))
                                                            )))))))))))))))))))))))))))))))))))))
