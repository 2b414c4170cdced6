-- ===== src/Ui/Fx.antt =====
-- The tables of src/plugin/generated/mnm_ui.h for the effect build (kFXParams and its neighbours).
mod Values
mod Syn
mod Pages
use schwung_monomodule.Prelude.{Bool, true, false, List, [], ◌∷◌, ◌++◌, Option, none, some}
use schwung_monomodule.Text.{codes}
use schwung_monomodule.Ui.{ParamDef, MachineDef, SynLabels, Tables}
use schwung_monomodule.Ui.Fx.Syn.{syn_defs}
use schwung_monomodule.Ui.Fx.Pages.{page_defs}

abbrev pub machines : List MachineDef
machines =
    record { id = 12; label = codes "THRU" }
    ∷ (record { id = 13; label = codes "REVERB" }
        ∷ (record { id = 15; label = codes "CHORUS" }
            ∷ (record { id = 16; label = codes "DYNAMIX" }
                ∷ (record { id = 17; label = codes "RINGMOD" }
                    ∷ (record { id = 18; label = codes "PHASER" }
                        ∷ (record { id = 19; label = codes "FLANGER" } ∷ ([])))))))

abbrev pub syn_labels : List SynLabels
syn_labels =
    record {
      id = 12;
      labels =
          none ∷ (none ∷ (none ∷ (none ∷ (none ∷ (none ∷ (none ∷ (some (codes "INP") ∷ ([]))))))));
    }
    ∷ (record {
      id = 13;
      labels =
          some (codes "DEC")
          ∷ (some (codes "DAMP")
              ∷ (some (codes "GATE")
                  ∷ (some (codes "MIX")
                      ∷ (some (codes "HP")
                          ∷ (some (codes "LP") ∷ (none ∷ (some (codes "INP") ∷ ([]))))))));
    }
        ∷ (record {
          id = 15;
          labels =
              some (codes "DEL")
              ∷ (some (codes "DEP")
                  ∷ (some (codes "SPD")
                      ∷ (some (codes "MIX")
                          ∷ (some (codes "FB")
                              ∷ (some (codes "WID")
                                  ∷ (some (codes "LP") ∷ (some (codes "INP") ∷ ([]))))))));
        }
            ∷ (record {
              id = 16;
              labels =
                  some (codes "ATK")
                  ∷ (some (codes "REL")
                      ∷ (some (codes "THRS")
                          ∷ (some (codes "MIX")
                              ∷ (some (codes "RAT")
                                  ∷ (some (codes "GAIN")
                                      ∷ (some (codes "RMS") ∷ (some (codes "INP") ∷ ([]))))))));
            }
                ∷ (record {
                  id = 17;
                  labels =
                      some (codes "WAVE")
                      ∷ (some (codes "EXT")
                          ∷ (none
                              ∷ (some (codes "MIX")
                                  ∷ (none ∷ (none ∷ (none ∷ (some (codes "INP") ∷ ([]))))))));
                }
                    ∷ (record {
                      id = 18;
                      labels =
                          some (codes "CNTR")
                          ∷ (some (codes "DEP")
                              ∷ (some (codes "SPD")
                                  ∷ (some (codes "MIX")
                                      ∷ (some (codes "FB")
                                          ∷ (some (codes "WID")
                                              ∷ (none ∷ (some (codes "INP") ∷ ([]))))))));
                    }
                        ∷ (record {
                          id = 19;
                          labels =
                              some (codes "DEL")
                              ∷ (some (codes "DEP")
                                  ∷ (some (codes "SPD")
                                      ∷ (some (codes "MIX")
                                          ∷ (some (codes "FB")
                                              ∷ (some (codes "WID")
                                                  ∷ (none ∷ (some (codes "INP") ∷ ([]))))))));
                        }
                            ∷ ([])))))))

-- The tables of the build; `compat` is MNM_UI_COMPAT.
unfoldable pub tables : Bool → Tables
tables compat = record {
  fx = true;
  compat = compat;
  defs = syn_defs ++ page_defs;
  machines = machines;
  syn_labels = syn_labels;
}
