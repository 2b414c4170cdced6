-- ===== src/Ui/One.antt =====
-- The tables of src/plugin/generated/mnm_ui.h for the generator build (kONEParams and its neighbours).
pub mod Values
mod Syn
mod Pages
use schwung_monomodule.Prelude.{Bool, true, false, List, [], ◌∷◌, ◌++◌, Option, none, some}
use schwung_monomodule.Text.{codes}
use schwung_monomodule.Ui.{ParamDef, MachineDef, SynLabels, Tables}
use schwung_monomodule.Ui.One.Syn.{syn_defs}
use schwung_monomodule.Ui.One.Pages.{page_defs}

abbrev pub machines : List MachineDef
machines =
    record { id = 0; label = codes "GND" }
    ∷ (record { id = 1; label = codes "GND SIN" }
        ∷ (record { id = 2; label = codes "GND NOIS" }
            ∷ (record { id = 3; label = codes "SID 6581" }
                ∷ (record { id = 4; label = codes "SWAVE SAW" }
                    ∷ (record { id = 5; label = codes "SWAVE PULS" }
                        ∷ (record { id = 14; label = codes "SWAVE ENS" }
                            ∷ (record { id = 6; label = codes "DPRO WAVE" }
                                ∷ (record { id = 7; label = codes "DPRO BBOX" }
                                    ∷ (record { id = 32; label = codes "DPRO DDRW" }
                                        ∷ (record { id = 33; label = codes "DPRO DENS" }
                                            ∷ (record { id = 8; label = codes "FM+ STAT" }
                                                ∷ (record { id = 9; label = codes "FM+ PAR" }
                                                    ∷ (record { id = 10; label = codes "FM+ DYN" }
                                                        ∷ (record { id = 11; label = codes "VO-6" }
                                                            ∷ ([])))))))))))))))

abbrev pub syn_labels : List SynLabels
syn_labels =
    record {
      id = 0;
      labels = none ∷ (none ∷ (none ∷ (none ∷ (none ∷ (none ∷ (none ∷ (none ∷ ([]))))))));
    }
    ∷ (record {
      id = 1;
      labels =
          none ∷ (none ∷ (none ∷ (none ∷ (none ∷ (none ∷ (none ∷ (some (codes "TUNE") ∷ ([]))))))));
    }
        ∷ (record {
          id = 2;
          labels =
              some (codes "ST")
              ∷ (some (codes "RED")
                  ∷ (some (codes "STON")
                      ∷ (none ∷ (none ∷ (none ∷ (none ∷ (some (codes "TUNE") ∷ ([]))))))));
        }
            ∷ (record {
              id = 3;
              labels =
                  some (codes "PW")
                  ∷ (some (codes "PWAD")
                      ∷ (some (codes "PWRS")
                          ∷ (some (codes "WAVE")
                              ∷ (some (codes "MOD")
                                  ∷ (some (codes "MSRC")
                                      ∷ (some (codes "MFRQ") ∷ (some (codes "TUNE") ∷ ([]))))))));
            }
                ∷ (record {
                  id = 4;
                  labels =
                      some (codes "UNIL")
                      ∷ (some (codes "UNIW")
                          ∷ (some (codes "UNIX")
                              ∷ (none
                                  ∷ (some (codes "SUBX")
                                      ∷ (some (codes "SUB1")
                                          ∷ (some (codes "SUB2")
                                              ∷ (some (codes "TUNE") ∷ ([]))))))));
                }
                    ∷ (record {
                      id = 5;
                      labels =
                          some (codes "UNIL")
                          ∷ (some (codes "UNIW")
                              ∷ (some (codes "SUB1")
                                  ∷ (some (codes "SUB2")
                                      ∷ (some (codes "PW")
                                          ∷ (some (codes "PWAD")
                                              ∷ (some (codes "PWRS")
                                                  ∷ (some (codes "TUNE") ∷ ([]))))))));
                    }
                        ∷ (record {
                          id = 14;
                          labels =
                              some (codes "PCH2")
                              ∷ (some (codes "PCH3")
                                  ∷ (some (codes "PCH4")
                                      ∷ (some (codes "WAVE")
                                          ∷ (some (codes "PW")
                                              ∷ (some (codes "CHRL")
                                                  ∷ (some (codes "CHRW")
                                                      ∷ (some (codes "TUNE") ∷ ([]))))))));
                        }
                            ∷ (record {
                              id = 6;
                              labels =
                                  some (codes "WAVE")
                                  ∷ (some (codes "WP")
                                      ∷ (some (codes "WPM")
                                          ∷ (some (codes "WPRS")
                                              ∷ (some (codes "SYNC")
                                                  ∷ (some (codes "SFRQ")
                                                      ∷ (none ∷ (some (codes "TUNE") ∷ ([]))))))));
                            }
                                ∷ (record {
                                  id = 7;
                                  labels =
                                      some (codes "PTCH")
                                      ∷ (some (codes "STRT")
                                          ∷ (none
                                              ∷ (none
                                                  ∷ (some (codes "RTRG")
                                                      ∷ (some (codes "RTIM")
                                                          ∷ (none ∷ (none ∷ ([]))))))));
                                }
                                    ∷ (record {
                                      id = 32;
                                      labels =
                                          some (codes "WAV1")
                                          ∷ (some (codes "MIX")
                                              ∷ (some (codes "WAV2")
                                                  ∷ (some (codes "TIME")
                                                      ∷ (some (codes "BR1")
                                                          ∷ (some (codes "WID")
                                                            ∷ (some (codes "BR2")
                                                            ∷ (some (codes "TUNE") ∷ ([]))))))));
                                    }
                                        ∷ (record {
                                          id = 33;
                                          labels =
                                              some (codes "PCH2")
                                              ∷ (some (codes "PCH3")
                                                  ∷ (some (codes "PCH4")
                                                      ∷ (some (codes "WAVE")
                                                          ∷ (none
                                                            ∷ (some (codes "CHRL")
                                                            ∷ (some (codes "CHRW")
                                                            ∷ (some (codes "TUNE") ∷ ([]))))))));
                                        }
                                            ∷ (record {
                                              id = 8;
                                              labels =
                                                  some (codes "1FRQ")
                                                  ∷ (some (codes "1FIN")
                                                      ∷ (some (codes "1ENV")
                                                          ∷ (some (codes "1FB")
                                                            ∷ (some (codes "2FRQ")
                                                            ∷ (some (codes "2VOL")
                                                            ∷ (some (codes "TONE")
                                                            ∷ (some (codes "TUNE") ∷ ([]))))))));
                                            }
                                                ∷ (record {
                                                  id = 9;
                                                  labels =
                                                      some (codes "1FRQ")
                                                      ∷ (some (codes "1ENV")
                                                          ∷ (some (codes "2FRQ")
                                                            ∷ (some (codes "2ENV")
                                                            ∷ (some (codes "3FRQ")
                                                            ∷ (some (codes "3ENV")
                                                            ∷ (some (codes "TONE")
                                                            ∷ (some (codes "TUNE") ∷ ([]))))))));
                                                }
                                                    ∷ (record {
                                                      id = 10;
                                                      labels =
                                                          some (codes "1FRQ")
                                                          ∷ (some (codes "1FEN")
                                                            ∷ (some (codes "1VOL")
                                                            ∷ (some (codes "1VEN")
                                                            ∷ (some (codes "2FRQ")
                                                            ∷ (some (codes "2ENV")
                                                            ∷ (some (codes "2FB")
                                                            ∷ (some (codes "TUNE") ∷ ([]))))))));
                                                    }
                                                        ∷ (record {
                                                          id = 11;
                                                          labels =
                                                            some (codes "VOC1")
                                                            ∷ (some (codes "VOC2")
                                                            ∷ (some (codes "V-SW")
                                                            ∷ (some (codes "VOIC")
                                                            ∷ (some (codes "CONS")
                                                            ∷ (some (codes "CLEN")
                                                            ∷ (some (codes "CVOL")
                                                            ∷ (some (codes "TUNE") ∷ ([]))))))));
                                                        }
                                                            ∷ ([])))))))))))))))

-- The tables of the build; `compat` is MNM_UI_COMPAT.
unfoldable pub tables : Bool → Tables
tables compat = record {
  fx = false;
  compat = compat;
  defs = syn_defs ++ page_defs;
  machines = machines;
  syn_labels = syn_labels;
}
