-- ===== src/Ui/One/Syn.antt =====
-- The rows of the SYN page of kONEParams in src/plugin/generated/mnm_ui.h.
use schwung_monomodule.Prelude.{List, [], ◌∷◌, none, some}
use schwung_monomodule.Prelude.Int.{pos}
use schwung_monomodule.Text.{codes}
use schwung_monomodule.Ui.{ParamDef, row}
use schwung_monomodule.Ui.One.Values.{
  ddrw_wav1, ddrw_wav2, dens_pch2, dens_pch3, dens_pch4, dens_wave, ens_pch2, ens_pch3, ens_pch4,
  fmd_1frq, fmd_2frq, fmp_1frq, fmp_2frq, fmp_3frq, fms_1frq, fms_2frq, nois_ston, puls_pwrs,
  sid_mod, sid_msrc, sid_pwrs, sid_wave, vo6_cons, vo6_vsw, wave_sync, wave_wave, wave_wprs,
}

abbrev pub syn_defs : List ParamDef
syn_defs =
    row (codes "sin_tune") 0 7 1 0 (pos 1) 64 none
    ∷ (row (codes "nois_st") 0 0 0 0 (pos 2) 0 none
        ∷ (row (codes "nois_red") 0 1 0 0 (pos 2) 0 none
            ∷ (row (codes "nois_ston") 0 2 2 2 (pos 2) 0 (some nois_ston)
                ∷ (row (codes "nois_tune") 0 7 1 0 (pos 2) 64 none
                    ∷ (row (codes "sid_pw") 0 0 0 0 (pos 3) 0 none
                        ∷ (row (codes "sid_pwad") 0 1 0 0 (pos 3) 0 none
                            ∷ (row (codes "sid_pwrs") 0 2 2 2 (pos 3) 96 (some sid_pwrs)
                                ∷ (row (codes "sid_wave") 0 3 2 5 (pos 3) 0 (some sid_wave)
                                    ∷ (row (codes "sid_mod") 0 4 2 4 (pos 3) 0 (some sid_mod)
                                        ∷ (row (codes "sid_msrc") 0 5 2 2 (pos 3) 0 (some sid_msrc)
                                            ∷ (row (codes "sid_mfrq") 0 6 1 0 (pos 3) 64 none
                                                ∷ (row (codes "sid_tune") 0 7 1 0 (pos 3) 64 none
                                                    ∷ (row (codes "saw_unil") 0 0 0 0 (pos 4) 0 none
                                                        ∷ (row (codes "saw_uniw") 0 1 0 0 (pos 4) 0
                                                            none
                                                            ∷ (row (codes "saw_unix") 0 2 0 0
                                                            (pos 4) 0 none
                                                            ∷ (row (codes "saw_subx") 0 4 0 0
                                                            (pos 4) 0 none
                                                            ∷ (row (codes "saw_sub1") 0 5 0 0
                                                            (pos 4) 0 none
                                                            ∷ (row (codes "saw_sub2") 0 6 0 0
                                                            (pos 4) 0 none
                                                            ∷ (row (codes "saw_tune") 0 7 1 0
                                                            (pos 4) 64 none
                                                            ∷ (row (codes "puls_unil") 0 0 0 0
                                                            (pos 5) 0 none
                                                            ∷ (row (codes "puls_uniw") 0 1 0 0
                                                            (pos 5) 0 none
                                                            ∷ (row (codes "puls_sub1") 0 2 0 0
                                                            (pos 5) 0 none
                                                            ∷ (row (codes "puls_sub2") 0 3 0 0
                                                            (pos 5) 0 none
                                                            ∷ (row (codes "puls_pw") 0 4 1 0 (pos 5)
                                                            64 none
                                                            ∷ (row (codes "puls_pwad") 0 5 0 0
                                                            (pos 5) 0 none
                                                            ∷ (row (codes "puls_pwrs") 0 6 2 2
                                                            (pos 5) 0 (some puls_pwrs)
                                                            ∷ (row (codes "puls_tune") 0 7 1 0
                                                            (pos 5) 64 none
                                                            ∷ (row (codes "ens_pch2") 0 0 2 33
                                                            (pos 14) 63 (some ens_pch2)
                                                            ∷ (row (codes "ens_pch3") 0 1 2 33
                                                            (pos 14) 63 (some ens_pch3)
                                                            ∷ (row (codes "ens_pch4") 0 2 2 33
                                                            (pos 14) 63 (some ens_pch4)
                                                            ∷ (row (codes "ens_wave") 0 3 0 0
                                                            (pos 14) 0 none
                                                            ∷ (row (codes "ens_pw") 0 4 1 0 (pos 14)
                                                            64 none
                                                            ∷ (row (codes "ens_chrl") 0 5 0 0
                                                            (pos 14) 0 none
                                                            ∷ (row (codes "ens_chrw") 0 6 0 0
                                                            (pos 14) 127 none
                                                            ∷ (row (codes "ens_tune") 0 7 1 0
                                                            (pos 14) 64 none
                                                            ∷ (row (codes "wave_wave") 0 0 2 32
                                                            (pos 6) 0 (some wave_wave)
                                                            ∷ (row (codes "wave_wp") 0 1 0 0 (pos 6)
                                                            0 none
                                                            ∷ (row (codes "wave_wpm") 0 2 0 0
                                                            (pos 6) 0 none
                                                            ∷ (row (codes "wave_wprs") 0 3 2 2
                                                            (pos 6) 96 (some wave_wprs)
                                                            ∷ (row (codes "wave_sync") 0 4 2 3
                                                            (pos 6) 0 (some wave_sync)
                                                            ∷ (row (codes "wave_sfrq") 0 5 0 0
                                                            (pos 6) 0 none
                                                            ∷ (row (codes "wave_tune") 0 7 1 0
                                                            (pos 6) 64 none
                                                            ∷ (row (codes "bbox_ptch") 0 0 0 0
                                                            (pos 7) 64 none
                                                            ∷ (row (codes "bbox_strt") 0 1 0 0
                                                            (pos 7) 0 none
                                                            ∷ (row (codes "bbox_rtrg") 0 4 0 0
                                                            (pos 7) 0 none
                                                            ∷ (row (codes "bbox_rtim") 0 5 0 0
                                                            (pos 7) 0 none
                                                            ∷ (row (codes "ddrw_wav1") 0 0 2 64
                                                            (pos 32) 0 (some ddrw_wav1)
                                                            ∷ (row (codes "ddrw_mix") 0 1 1 0
                                                            (pos 32) 64 none
                                                            ∷ (row (codes "ddrw_wav2") 0 2 2 64
                                                            (pos 32) 0 (some ddrw_wav2)
                                                            ∷ (row (codes "ddrw_time") 0 3 0 0
                                                            (pos 32) 0 none
                                                            ∷ (row (codes "ddrw_br1") 0 4 0 0
                                                            (pos 32) 0 none
                                                            ∷ (row (codes "ddrw_wid") 0 5 0 0
                                                            (pos 32) 0 none
                                                            ∷ (row (codes "ddrw_br2") 0 6 0 0
                                                            (pos 32) 0 none
                                                            ∷ (row (codes "ddrw_tune") 0 7 1 0
                                                            (pos 32) 64 none
                                                            ∷ (row (codes "dens_pch2") 0 0 2 33
                                                            (pos 33) 63 (some dens_pch2)
                                                            ∷ (row (codes "dens_pch3") 0 1 2 33
                                                            (pos 33) 63 (some dens_pch3)
                                                            ∷ (row (codes "dens_pch4") 0 2 2 33
                                                            (pos 33) 63 (some dens_pch4)
                                                            ∷ (row (codes "dens_wave") 0 3 2 64
                                                            (pos 33) 0 (some dens_wave)
                                                            ∷ (row (codes "dens_chrl") 0 5 0 0
                                                            (pos 33) 0 none
                                                            ∷ (row (codes "dens_chrw") 0 6 0 0
                                                            (pos 33) 0 none
                                                            ∷ (row (codes "dens_tune") 0 7 1 0
                                                            (pos 33) 64 none
                                                            ∷ (row (codes "fms_1frq") 0 0 2 24
                                                            (pos 8) 60 (some fms_1frq)
                                                            ∷ (row (codes "fms_1fin") 0 1 1 0
                                                            (pos 8) 64 none
                                                            ∷ (row (codes "fms_1env") 0 2 0 0
                                                            (pos 8) 80 none
                                                            ∷ (row (codes "fms_1fb") 0 3 0 0 (pos 8)
                                                            30 none
                                                            ∷ (row (codes "fms_2frq") 0 4 2 24
                                                            (pos 8) 80 (some fms_2frq)
                                                            ∷ (row (codes "fms_2vol") 0 5 0 0
                                                            (pos 8) 64 none
                                                            ∷ (row (codes "fms_tone") 0 6 0 0
                                                            (pos 8) 98 none
                                                            ∷ (row (codes "fms_tune") 0 7 1 0
                                                            (pos 8) 64 none
                                                            ∷ (row (codes "fmp_1frq") 0 0 2 24
                                                            (pos 9) 60 (some fmp_1frq)
                                                            ∷ (row (codes "fmp_1env") 0 1 0 0
                                                            (pos 9) 64 none
                                                            ∷ (row (codes "fmp_2frq") 0 2 2 24
                                                            (pos 9) 80 (some fmp_2frq)
                                                            ∷ (row (codes "fmp_2env") 0 3 0 0
                                                            (pos 9) 64 none
                                                            ∷ (row (codes "fmp_3frq") 0 4 2 24
                                                            (pos 9) 102 (some fmp_3frq)
                                                            ∷ (row (codes "fmp_3env") 0 5 0 0
                                                            (pos 9) 80 none
                                                            ∷ (row (codes "fmp_tone") 0 6 0 0
                                                            (pos 9) 98 none
                                                            ∷ (row (codes "fmp_tune") 0 7 1 0
                                                            (pos 9) 64 none
                                                            ∷ (row (codes "fmd_1frq") 0 0 3 0
                                                            (pos 10) 64 (some fmd_1frq)
                                                            ∷ (row (codes "fmd_1fen") 0 1 1 0
                                                            (pos 10) 64 none
                                                            ∷ (row (codes "fmd_1vol") 0 2 0 0
                                                            (pos 10) 64 none
                                                            ∷ (row (codes "fmd_1ven") 0 3 1 0
                                                            (pos 10) 64 none
                                                            ∷ (row (codes "fmd_2frq") 0 4 3 0
                                                            (pos 10) 74 (some fmd_2frq)
                                                            ∷ (row (codes "fmd_2env") 0 5 0 0
                                                            (pos 10) 80 none
                                                            ∷ (row (codes "fmd_2fb") 0 6 0 0
                                                            (pos 10) 30 none
                                                            ∷ (row (codes "fmd_tune") 0 7 1 0
                                                            (pos 10) 64 none
                                                            ∷ (row (codes "vo6_voc1") 0 0 0 0
                                                            (pos 11) 64 none
                                                            ∷ (row (codes "vo6_voc2") 0 1 0 0
                                                            (pos 11) 64 none
                                                            ∷ (row (codes "vo6_vsw") 0 2 2 2
                                                            (pos 11) 96 (some vo6_vsw)
                                                            ∷ (row (codes "vo6_voic") 0 3 0 0
                                                            (pos 11) 0 none
                                                            ∷ (row (codes "vo6_cons") 0 4 2 21
                                                            (pos 11) 0 (some vo6_cons)
                                                            ∷ (row (codes "vo6_clen") 0 5 0 0
                                                            (pos 11) 64 none
                                                            ∷ (row (codes "vo6_cvol") 0 6 0 0
                                                            (pos 11) 64 none
                                                            ∷ (row (codes "vo6_tune") 0 7 1 0
                                                            (pos 11) 64 none
                                                            ∷ ([])))))))))))))))))))))))))))))))))))
                                                            ))))))))))))))))))))))))))))))))))))))))
                                                            )))))))))))))))))))
