-- ===== src/Ui/One/Values.antt =====
-- The lists of values that src/plugin/generated/mnm_ui.h names for the generator build (kONEVals).
use schwung_monomodule.Prelude.{List, [], ◌∷◌}
use schwung_monomodule.Text.{Bytes, codes}

abbrev pub nois_ston : List Bytes
nois_ston = codes "OFF" ∷ codes "ON" ∷ []

abbrev pub sid_pwrs : List Bytes
sid_pwrs = codes "OFF" ∷ codes "ON" ∷ []

abbrev pub sid_wave : List Bytes
sid_wave = codes "TRI" ∷ codes "SAW" ∷ codes "PULS" ∷ codes "MIX" ∷ codes "NOIS" ∷ []

abbrev pub sid_mod : List Bytes
sid_mod = codes "OFF" ∷ codes "RING" ∷ codes "SYNC" ∷ codes "R+S" ∷ []

abbrev pub sid_msrc : List Bytes
sid_msrc = codes "MFRQ" ∷ codes "PRCH" ∷ []

abbrev pub puls_pwrs : List Bytes
puls_pwrs = codes "OFF" ∷ codes "ON" ∷ []

abbrev pub ens_pch2 : List Bytes
ens_pch2 =
    codes "-12"
    ∷ codes "-11"
    ∷ codes "-10"
    ∷ codes "-09"
    ∷ codes "-08"
    ∷ codes "2/3"
    ∷ codes "-07"
    ∷ codes "-06"
    ∷ codes "-05"
    ∷ codes "3/4"
    ∷ codes "-04"
    ∷ codes "4/5"
    ∷ codes "5/6"
    ∷ codes "-03"
    ∷ codes "-02"
    ∷ codes "-01"
    ∷ codes "OFF"
    ∷ codes "+01"
    ∷ codes "+02"
    ∷ codes "+03"
    ∷ codes "6/5"
    ∷ codes "5/4"
    ∷ codes "+04"
    ∷ codes "4/3"
    ∷ codes "+05"
    ∷ codes "+06"
    ∷ codes "+07"
    ∷ codes "3/2"
    ∷ codes "+08"
    ∷ codes "+09"
    ∷ codes "+10"
    ∷ codes "+11"
    ∷ codes "+12"
    ∷ []

abbrev pub ens_pch3 : List Bytes
ens_pch3 =
    codes "-12"
    ∷ codes "-11"
    ∷ codes "-10"
    ∷ codes "-09"
    ∷ codes "-08"
    ∷ codes "2/3"
    ∷ codes "-07"
    ∷ codes "-06"
    ∷ codes "-05"
    ∷ codes "3/4"
    ∷ codes "-04"
    ∷ codes "4/5"
    ∷ codes "5/6"
    ∷ codes "-03"
    ∷ codes "-02"
    ∷ codes "-01"
    ∷ codes "OFF"
    ∷ codes "+01"
    ∷ codes "+02"
    ∷ codes "+03"
    ∷ codes "6/5"
    ∷ codes "5/4"
    ∷ codes "+04"
    ∷ codes "4/3"
    ∷ codes "+05"
    ∷ codes "+06"
    ∷ codes "+07"
    ∷ codes "3/2"
    ∷ codes "+08"
    ∷ codes "+09"
    ∷ codes "+10"
    ∷ codes "+11"
    ∷ codes "+12"
    ∷ []

abbrev pub ens_pch4 : List Bytes
ens_pch4 =
    codes "-12"
    ∷ codes "-11"
    ∷ codes "-10"
    ∷ codes "-09"
    ∷ codes "-08"
    ∷ codes "2/3"
    ∷ codes "-07"
    ∷ codes "-06"
    ∷ codes "-05"
    ∷ codes "3/4"
    ∷ codes "-04"
    ∷ codes "4/5"
    ∷ codes "5/6"
    ∷ codes "-03"
    ∷ codes "-02"
    ∷ codes "-01"
    ∷ codes "OFF"
    ∷ codes "+01"
    ∷ codes "+02"
    ∷ codes "+03"
    ∷ codes "6/5"
    ∷ codes "5/4"
    ∷ codes "+04"
    ∷ codes "4/3"
    ∷ codes "+05"
    ∷ codes "+06"
    ∷ codes "+07"
    ∷ codes "3/2"
    ∷ codes "+08"
    ∷ codes "+09"
    ∷ codes "+10"
    ∷ codes "+11"
    ∷ codes "+12"
    ∷ []

abbrev pub wave_wave : List Bytes
wave_wave =
    codes "S01"
    ∷ codes "S02"
    ∷ codes "S03"
    ∷ codes "S04"
    ∷ codes "S05"
    ∷ codes "S06"
    ∷ codes "S07"
    ∷ codes "S08"
    ∷ codes "S09"
    ∷ codes "S10"
    ∷ codes "S11"
    ∷ codes "S12"
    ∷ codes "S13"
    ∷ codes "S14"
    ∷ codes "S15"
    ∷ codes "S16"
    ∷ codes "S17"
    ∷ codes "S18"
    ∷ codes "S19"
    ∷ codes "S20"
    ∷ codes "S21"
    ∷ codes "S22"
    ∷ codes "S23"
    ∷ codes "S24"
    ∷ codes "S25"
    ∷ codes "S26"
    ∷ codes "S27"
    ∷ codes "S28"
    ∷ codes "S29"
    ∷ codes "S30"
    ∷ codes "S31"
    ∷ codes "S32"
    ∷ []

abbrev pub wave_wprs : List Bytes
wave_wprs = codes "OFF" ∷ codes "ON" ∷ []

abbrev pub wave_sync : List Bytes
wave_sync = codes "OFF" ∷ codes "SFRQ" ∷ codes "PRCH" ∷ []

abbrev pub ddrw_wav1 : List Bytes
ddrw_wav1 =
    codes "D01"
    ∷ codes "D02"
    ∷ codes "D03"
    ∷ codes "D04"
    ∷ codes "D05"
    ∷ codes "D06"
    ∷ codes "D07"
    ∷ codes "D08"
    ∷ codes "D09"
    ∷ codes "D10"
    ∷ codes "D11"
    ∷ codes "D12"
    ∷ codes "D13"
    ∷ codes "D14"
    ∷ codes "D15"
    ∷ codes "D16"
    ∷ codes "D17"
    ∷ codes "D18"
    ∷ codes "D19"
    ∷ codes "D20"
    ∷ codes "D21"
    ∷ codes "D22"
    ∷ codes "D23"
    ∷ codes "D24"
    ∷ codes "D25"
    ∷ codes "D26"
    ∷ codes "D27"
    ∷ codes "D28"
    ∷ codes "D29"
    ∷ codes "D30"
    ∷ codes "D31"
    ∷ codes "D32"
    ∷ codes "SIN"
    ∷ codes "TRI"
    ∷ codes "SAW"
    ∷ codes "SQR"
    ∷ codes "PL25"
    ∷ codes "PL12"
    ∷ codes "PL06"
    ∷ codes "RSAW"
    ∷ codes "OCT2"
    ∷ codes "OCT3"
    ∷ codes "ORGN"
    ∷ codes "FIFT"
    ∷ codes "SAW4"
    ∷ codes "SAW8"
    ∷ codes "SQR4"
    ∷ codes "CLAR"
    ∷ codes "SIN2"
    ∷ codes "SIN3"
    ∷ codes "HALF"
    ∷ codes "FULL"
    ∷ codes "TRSW"
    ∷ codes "STEP"
    ∷ codes "ST16"
    ∷ codes "SINF"
    ∷ codes "SINF2"
    ∷ codes "SINF3"
    ∷ codes "BELL"
    ∷ codes "NASL"
    ∷ codes "BUZZ"
    ∷ codes "HPLS"
    ∷ codes "RAMP"
    ∷ codes "NOIZ"
    ∷ []

abbrev pub ddrw_wav2 : List Bytes
ddrw_wav2 =
    codes "D01"
    ∷ codes "D02"
    ∷ codes "D03"
    ∷ codes "D04"
    ∷ codes "D05"
    ∷ codes "D06"
    ∷ codes "D07"
    ∷ codes "D08"
    ∷ codes "D09"
    ∷ codes "D10"
    ∷ codes "D11"
    ∷ codes "D12"
    ∷ codes "D13"
    ∷ codes "D14"
    ∷ codes "D15"
    ∷ codes "D16"
    ∷ codes "D17"
    ∷ codes "D18"
    ∷ codes "D19"
    ∷ codes "D20"
    ∷ codes "D21"
    ∷ codes "D22"
    ∷ codes "D23"
    ∷ codes "D24"
    ∷ codes "D25"
    ∷ codes "D26"
    ∷ codes "D27"
    ∷ codes "D28"
    ∷ codes "D29"
    ∷ codes "D30"
    ∷ codes "D31"
    ∷ codes "D32"
    ∷ codes "SIN"
    ∷ codes "TRI"
    ∷ codes "SAW"
    ∷ codes "SQR"
    ∷ codes "PL25"
    ∷ codes "PL12"
    ∷ codes "PL06"
    ∷ codes "RSAW"
    ∷ codes "OCT2"
    ∷ codes "OCT3"
    ∷ codes "ORGN"
    ∷ codes "FIFT"
    ∷ codes "SAW4"
    ∷ codes "SAW8"
    ∷ codes "SQR4"
    ∷ codes "CLAR"
    ∷ codes "SIN2"
    ∷ codes "SIN3"
    ∷ codes "HALF"
    ∷ codes "FULL"
    ∷ codes "TRSW"
    ∷ codes "STEP"
    ∷ codes "ST16"
    ∷ codes "SINF"
    ∷ codes "SINF2"
    ∷ codes "SINF3"
    ∷ codes "BELL"
    ∷ codes "NASL"
    ∷ codes "BUZZ"
    ∷ codes "HPLS"
    ∷ codes "RAMP"
    ∷ codes "NOIZ"
    ∷ []

abbrev pub dens_pch2 : List Bytes
dens_pch2 =
    codes "-12"
    ∷ codes "-11"
    ∷ codes "-10"
    ∷ codes "-09"
    ∷ codes "-08"
    ∷ codes "2/3"
    ∷ codes "-07"
    ∷ codes "-06"
    ∷ codes "-05"
    ∷ codes "3/4"
    ∷ codes "-04"
    ∷ codes "4/5"
    ∷ codes "5/6"
    ∷ codes "-03"
    ∷ codes "-02"
    ∷ codes "-01"
    ∷ codes "OFF"
    ∷ codes "+01"
    ∷ codes "+02"
    ∷ codes "+03"
    ∷ codes "6/5"
    ∷ codes "5/4"
    ∷ codes "+04"
    ∷ codes "4/3"
    ∷ codes "+05"
    ∷ codes "+06"
    ∷ codes "+07"
    ∷ codes "3/2"
    ∷ codes "+08"
    ∷ codes "+09"
    ∷ codes "+10"
    ∷ codes "+11"
    ∷ codes "+12"
    ∷ []

abbrev pub dens_pch3 : List Bytes
dens_pch3 =
    codes "-12"
    ∷ codes "-11"
    ∷ codes "-10"
    ∷ codes "-09"
    ∷ codes "-08"
    ∷ codes "2/3"
    ∷ codes "-07"
    ∷ codes "-06"
    ∷ codes "-05"
    ∷ codes "3/4"
    ∷ codes "-04"
    ∷ codes "4/5"
    ∷ codes "5/6"
    ∷ codes "-03"
    ∷ codes "-02"
    ∷ codes "-01"
    ∷ codes "OFF"
    ∷ codes "+01"
    ∷ codes "+02"
    ∷ codes "+03"
    ∷ codes "6/5"
    ∷ codes "5/4"
    ∷ codes "+04"
    ∷ codes "4/3"
    ∷ codes "+05"
    ∷ codes "+06"
    ∷ codes "+07"
    ∷ codes "3/2"
    ∷ codes "+08"
    ∷ codes "+09"
    ∷ codes "+10"
    ∷ codes "+11"
    ∷ codes "+12"
    ∷ []

abbrev pub dens_pch4 : List Bytes
dens_pch4 =
    codes "-12"
    ∷ codes "-11"
    ∷ codes "-10"
    ∷ codes "-09"
    ∷ codes "-08"
    ∷ codes "2/3"
    ∷ codes "-07"
    ∷ codes "-06"
    ∷ codes "-05"
    ∷ codes "3/4"
    ∷ codes "-04"
    ∷ codes "4/5"
    ∷ codes "5/6"
    ∷ codes "-03"
    ∷ codes "-02"
    ∷ codes "-01"
    ∷ codes "OFF"
    ∷ codes "+01"
    ∷ codes "+02"
    ∷ codes "+03"
    ∷ codes "6/5"
    ∷ codes "5/4"
    ∷ codes "+04"
    ∷ codes "4/3"
    ∷ codes "+05"
    ∷ codes "+06"
    ∷ codes "+07"
    ∷ codes "3/2"
    ∷ codes "+08"
    ∷ codes "+09"
    ∷ codes "+10"
    ∷ codes "+11"
    ∷ codes "+12"
    ∷ []

abbrev pub dens_wave : List Bytes
dens_wave =
    codes "D01"
    ∷ codes "D02"
    ∷ codes "D03"
    ∷ codes "D04"
    ∷ codes "D05"
    ∷ codes "D06"
    ∷ codes "D07"
    ∷ codes "D08"
    ∷ codes "D09"
    ∷ codes "D10"
    ∷ codes "D11"
    ∷ codes "D12"
    ∷ codes "D13"
    ∷ codes "D14"
    ∷ codes "D15"
    ∷ codes "D16"
    ∷ codes "D17"
    ∷ codes "D18"
    ∷ codes "D19"
    ∷ codes "D20"
    ∷ codes "D21"
    ∷ codes "D22"
    ∷ codes "D23"
    ∷ codes "D24"
    ∷ codes "D25"
    ∷ codes "D26"
    ∷ codes "D27"
    ∷ codes "D28"
    ∷ codes "D29"
    ∷ codes "D30"
    ∷ codes "D31"
    ∷ codes "D32"
    ∷ codes "SIN"
    ∷ codes "TRI"
    ∷ codes "SAW"
    ∷ codes "SQR"
    ∷ codes "PL25"
    ∷ codes "PL12"
    ∷ codes "PL06"
    ∷ codes "RSAW"
    ∷ codes "OCT2"
    ∷ codes "OCT3"
    ∷ codes "ORGN"
    ∷ codes "FIFT"
    ∷ codes "SAW4"
    ∷ codes "SAW8"
    ∷ codes "SQR4"
    ∷ codes "CLAR"
    ∷ codes "SIN2"
    ∷ codes "SIN3"
    ∷ codes "HALF"
    ∷ codes "FULL"
    ∷ codes "TRSW"
    ∷ codes "STEP"
    ∷ codes "ST16"
    ∷ codes "SINF"
    ∷ codes "SINF2"
    ∷ codes "SINF3"
    ∷ codes "BELL"
    ∷ codes "NASL"
    ∷ codes "BUZZ"
    ∷ codes "HPLS"
    ∷ codes "RAMP"
    ∷ codes "NOIZ"
    ∷ []

abbrev pub fms_1frq : List Bytes
fms_1frq =
    codes "1/64"
    ∷ codes "1/32"
    ∷ codes "1/16"
    ∷ codes "3/32"
    ∷ codes "1/8"
    ∷ codes "3/16"
    ∷ codes "1/4"
    ∷ codes "5/16"
    ∷ codes "3/8"
    ∷ codes "5/32"
    ∷ codes "7/16"
    ∷ codes "1/2"
    ∷ codes "5/8"
    ∷ codes "3/4"
    ∷ codes "7/8"
    ∷ codes "1"
    ∷ codes "1.25"
    ∷ codes "1.5"
    ∷ codes "1.75"
    ∷ codes "2"
    ∷ codes "2.5"
    ∷ codes "3"
    ∷ codes "3.5"
    ∷ codes "4"
    ∷ []

abbrev pub fms_2frq : List Bytes
fms_2frq =
    codes "1/64"
    ∷ codes "1/32"
    ∷ codes "1/16"
    ∷ codes "3/32"
    ∷ codes "1/8"
    ∷ codes "3/16"
    ∷ codes "1/4"
    ∷ codes "5/16"
    ∷ codes "3/8"
    ∷ codes "5/32"
    ∷ codes "7/16"
    ∷ codes "1/2"
    ∷ codes "5/8"
    ∷ codes "3/4"
    ∷ codes "7/8"
    ∷ codes "1"
    ∷ codes "1.25"
    ∷ codes "1.5"
    ∷ codes "1.75"
    ∷ codes "2"
    ∷ codes "2.5"
    ∷ codes "3"
    ∷ codes "3.5"
    ∷ codes "4"
    ∷ []

abbrev pub fmp_1frq : List Bytes
fmp_1frq =
    codes "1/64"
    ∷ codes "1/32"
    ∷ codes "1/16"
    ∷ codes "3/32"
    ∷ codes "1/8"
    ∷ codes "3/16"
    ∷ codes "1/4"
    ∷ codes "5/16"
    ∷ codes "3/8"
    ∷ codes "5/32"
    ∷ codes "7/16"
    ∷ codes "1/2"
    ∷ codes "5/8"
    ∷ codes "3/4"
    ∷ codes "7/8"
    ∷ codes "1"
    ∷ codes "1.25"
    ∷ codes "1.5"
    ∷ codes "1.75"
    ∷ codes "2"
    ∷ codes "2.5"
    ∷ codes "3"
    ∷ codes "3.5"
    ∷ codes "4"
    ∷ []

abbrev pub fmp_2frq : List Bytes
fmp_2frq =
    codes "1/64"
    ∷ codes "1/32"
    ∷ codes "1/16"
    ∷ codes "3/32"
    ∷ codes "1/8"
    ∷ codes "3/16"
    ∷ codes "1/4"
    ∷ codes "5/16"
    ∷ codes "3/8"
    ∷ codes "5/32"
    ∷ codes "7/16"
    ∷ codes "1/2"
    ∷ codes "5/8"
    ∷ codes "3/4"
    ∷ codes "7/8"
    ∷ codes "1"
    ∷ codes "1.25"
    ∷ codes "1.5"
    ∷ codes "1.75"
    ∷ codes "2"
    ∷ codes "2.5"
    ∷ codes "3"
    ∷ codes "3.5"
    ∷ codes "4"
    ∷ []

abbrev pub fmp_3frq : List Bytes
fmp_3frq =
    codes "1/64"
    ∷ codes "1/32"
    ∷ codes "1/16"
    ∷ codes "3/32"
    ∷ codes "1/8"
    ∷ codes "3/16"
    ∷ codes "1/4"
    ∷ codes "5/16"
    ∷ codes "3/8"
    ∷ codes "5/32"
    ∷ codes "7/16"
    ∷ codes "1/2"
    ∷ codes "5/8"
    ∷ codes "3/4"
    ∷ codes "7/8"
    ∷ codes "1"
    ∷ codes "1.25"
    ∷ codes "1.5"
    ∷ codes "1.75"
    ∷ codes "2"
    ∷ codes "2.5"
    ∷ codes "3"
    ∷ codes "3.5"
    ∷ codes "4"
    ∷ []

abbrev pub fmd_1frq : List Bytes
fmd_1frq =
    codes "0.0"
    ∷ codes "1/64"
    ∷ codes "1/32"
    ∷ codes ".046"
    ∷ codes "1/16"
    ∷ codes ".078"
    ∷ codes "3/32"
    ∷ codes ".109"
    ∷ codes "1/8"
    ∷ codes ".140"
    ∷ codes "5/32"
    ∷ codes ".171"
    ∷ codes "3/16"
    ∷ codes ".203"
    ∷ codes ".218"
    ∷ codes ".234"
    ∷ codes "1/4"
    ∷ codes ".265"
    ∷ codes ".281"
    ∷ codes ".296"
    ∷ codes "5/16"
    ∷ codes ".328"
    ∷ codes ".343"
    ∷ codes ".359"
    ∷ codes "3/8"
    ∷ codes ".390"
    ∷ codes ".406"
    ∷ codes ".421"
    ∷ codes "7/16"
    ∷ codes ".453"
    ∷ codes ".468"
    ∷ codes ".484"
    ∷ codes "1/2"
    ∷ codes ".515"
    ∷ codes ".531"
    ∷ codes ".546"
    ∷ codes "9/16"
    ∷ codes ".578"
    ∷ codes ".593"
    ∷ codes ".609"
    ∷ codes "5/8"
    ∷ codes ".640"
    ∷ codes ".656"
    ∷ codes ".671"
    ∷ codes ".687"
    ∷ codes ".703"
    ∷ codes ".718"
    ∷ codes ".734"
    ∷ codes "3/4"
    ∷ codes ".765"
    ∷ codes ".781"
    ∷ codes ".796"
    ∷ codes ".812"
    ∷ codes ".828"
    ∷ codes ".843"
    ∷ codes ".859"
    ∷ codes "7/8"
    ∷ codes ".890"
    ∷ codes ".906"
    ∷ codes ".921"
    ∷ codes ".937"
    ∷ codes ".953"
    ∷ codes ".968"
    ∷ codes ".984"
    ∷ codes "1.0"
    ∷ codes "1.01"
    ∷ codes "1.03"
    ∷ codes "1.04"
    ∷ codes "1.06"
    ∷ codes "1.07"
    ∷ codes "1.09"
    ∷ codes "1.10"
    ∷ codes "1.12"
    ∷ codes "1.14"
    ∷ codes "1.15"
    ∷ codes "1.17"
    ∷ codes "1.18"
    ∷ codes "1.20"
    ∷ codes "1.21"
    ∷ codes "1.23"
    ∷ codes "1.25"
    ∷ codes "1.26"
    ∷ codes "1.28"
    ∷ codes "1.29"
    ∷ codes "1.31"
    ∷ codes "1.32"
    ∷ codes "1.34"
    ∷ codes "1.35"
    ∷ codes "1.37"
    ∷ codes "1.39"
    ∷ codes "1.40"
    ∷ codes "1.42"
    ∷ codes "1.43"
    ∷ codes "1.45"
    ∷ codes "1.46"
    ∷ codes "1.48"
    ∷ codes "1.5"
    ∷ codes "1.51"
    ∷ codes "1.53"
    ∷ codes "1.54"
    ∷ codes "1.56"
    ∷ codes "1.57"
    ∷ codes "1.59"
    ∷ codes "1.60"
    ∷ codes "1.62"
    ∷ codes "1.64"
    ∷ codes "1.65"
    ∷ codes "1.67"
    ∷ codes "1.68"
    ∷ codes "1.70"
    ∷ codes "1.71"
    ∷ codes "1.73"
    ∷ codes "1.75"
    ∷ codes "1.76"
    ∷ codes "1.78"
    ∷ codes "1.79"
    ∷ codes "1.81"
    ∷ codes "1.82"
    ∷ codes "1.84"
    ∷ codes "1.85"
    ∷ codes "1.87"
    ∷ codes "1.89"
    ∷ codes "1.90"
    ∷ codes "1.92"
    ∷ codes "1.93"
    ∷ codes "1.95"
    ∷ codes "1.96"
    ∷ codes "2.0"
    ∷ []

abbrev pub fmd_2frq : List Bytes
fmd_2frq =
    codes "0.0"
    ∷ codes ".000"
    ∷ codes ".001"
    ∷ codes ".002"
    ∷ codes ".003"
    ∷ codes ".006"
    ∷ codes ".008"
    ∷ codes ".011"
    ∷ codes "1/64"
    ∷ codes ".019"
    ∷ codes ".024"
    ∷ codes ".029"
    ∷ codes ".035"
    ∷ codes ".041"
    ∷ codes ".047"
    ∷ codes ".054"
    ∷ codes "1/16"
    ∷ codes ".070"
    ∷ codes ".079"
    ∷ codes ".088"
    ∷ codes ".097"
    ∷ codes ".107"
    ∷ codes ".118"
    ∷ codes ".129"
    ∷ codes "9/64"
    ∷ codes ".152"
    ∷ codes ".165"
    ∷ codes ".177"
    ∷ codes ".191"
    ∷ codes ".205"
    ∷ codes ".219"
    ∷ codes ".234"
    ∷ codes "1/4"
    ∷ codes ".265"
    ∷ codes ".282"
    ∷ codes ".299"
    ∷ codes ".316"
    ∷ codes ".334"
    ∷ codes ".352"
    ∷ codes ".371"
    ∷ codes ".390"
    ∷ codes ".410"
    ∷ codes ".430"
    ∷ codes ".451"
    ∷ codes ".472"
    ∷ codes ".494"
    ∷ codes ".516"
    ∷ codes ".539"
    ∷ codes "9/16"
    ∷ codes ".586"
    ∷ codes ".610"
    ∷ codes ".635"
    ∷ codes ".660"
    ∷ codes ".685"
    ∷ codes ".711"
    ∷ codes ".738"
    ∷ codes ".765"
    ∷ codes ".793"
    ∷ codes ".821"
    ∷ codes ".849"
    ∷ codes ".878"
    ∷ codes ".908"
    ∷ codes ".938"
    ∷ codes ".968"
    ∷ codes "1.0"
    ∷ codes "1.03"
    ∷ codes "1.06"
    ∷ codes "1.09"
    ∷ codes "1.12"
    ∷ codes "1.16"
    ∷ codes "1.19"
    ∷ codes "1.23"
    ∷ codes "1.26"
    ∷ codes "1.30"
    ∷ codes "1.33"
    ∷ codes "1.37"
    ∷ codes "1.41"
    ∷ codes "1.44"
    ∷ codes "1.48"
    ∷ codes "1.52"
    ∷ codes "1.56"
    ∷ codes "1.60"
    ∷ codes "1.64"
    ∷ codes "1.68"
    ∷ codes "1.72"
    ∷ codes "1.76"
    ∷ codes "1.80"
    ∷ codes "1.84"
    ∷ codes "1.89"
    ∷ codes "1.93"
    ∷ codes "1.97"
    ∷ codes "2.02"
    ∷ codes "2.06"
    ∷ codes "2.11"
    ∷ codes "2.15"
    ∷ codes "2.20"
    ∷ codes "2.25"
    ∷ codes "2.29"
    ∷ codes "2.34"
    ∷ codes "2.39"
    ∷ codes "2.44"
    ∷ codes "2.49"
    ∷ codes "2.54"
    ∷ codes "2.59"
    ∷ codes "2.64"
    ∷ codes "2.69"
    ∷ codes "2.74"
    ∷ codes "2.79"
    ∷ codes "2.84"
    ∷ codes "2.90"
    ∷ codes "2.95"
    ∷ codes "3.0"
    ∷ codes "3.06"
    ∷ codes "3.11"
    ∷ codes "3.17"
    ∷ codes "3.22"
    ∷ codes "3.28"
    ∷ codes "3.34"
    ∷ codes "3.39"
    ∷ codes "3.45"
    ∷ codes "3.51"
    ∷ codes "3.57"
    ∷ codes "3.63"
    ∷ codes "3.69"
    ∷ codes "3.75"
    ∷ codes "3.81"
    ∷ codes "3.87"
    ∷ codes "4.0"
    ∷ []

abbrev pub vo6_vsw : List Bytes
vo6_vsw = codes "OFF" ∷ codes "ON" ∷ []

abbrev pub vo6_cons : List Bytes
vo6_cons =
    codes "-"
    ∷ codes "B"
    ∷ codes "D"
    ∷ codes "F"
    ∷ codes "G"
    ∷ codes "H"
    ∷ codes "J"
    ∷ codes "K"
    ∷ codes "L"
    ∷ codes "M"
    ∷ codes "N"
    ∷ codes "P"
    ∷ codes "R"
    ∷ codes "RR"
    ∷ codes "S"
    ∷ codes "SJ"
    ∷ codes "T"
    ∷ codes "TH"
    ∷ codes "TJ"
    ∷ codes "V"
    ∷ codes "Z"
    ∷ []

abbrev pub lfo1_page : List Bytes
lfo1_page =
    codes "PTCH"
    ∷ codes "SYNT"
    ∷ codes "AMP"
    ∷ codes "FILT"
    ∷ codes "EFFX"
    ∷ codes "LFO1"
    ∷ codes "LFO2"
    ∷ codes "LFO3"
    ∷ codes "MIDI"
    ∷ []

abbrev pub lfo1_dest_ptch : List Bytes
lfo1_dest_ptch =
    codes "1/12"
    ∷ codes "2/12"
    ∷ codes "7/12"
    ∷ codes "1OCT"
    ∷ codes "2OCT"
    ∷ codes "4OCT"
    ∷ codes "8OCT"
    ∷ codes "16OC"
    ∷ []

abbrev pub lfo1_dest_synt : List Bytes
lfo1_dest_synt =
    codes "PAR1"
    ∷ codes "PAR2"
    ∷ codes "PAR3"
    ∷ codes "PAR4"
    ∷ codes "PAR5"
    ∷ codes "PAR6"
    ∷ codes "PAR7"
    ∷ codes "PAR8"
    ∷ []

abbrev pub lfo1_dest_amp : List Bytes
lfo1_dest_amp =
    codes "ATK"
    ∷ codes "HOLD"
    ∷ codes "DEC"
    ∷ codes "REL"
    ∷ codes "DIST"
    ∷ codes "VOL"
    ∷ codes "PAN"
    ∷ codes "PORT"
    ∷ []

abbrev pub lfo1_dest_filt : List Bytes
lfo1_dest_filt =
    codes "BASE"
    ∷ codes "WDTH"
    ∷ codes "HPQ"
    ∷ codes "LPQ"
    ∷ codes "ATK"
    ∷ codes "DEC"
    ∷ codes "BOFS"
    ∷ codes "WOFS"
    ∷ []

abbrev pub lfo1_dest_effx : List Bytes
lfo1_dest_effx =
    codes "EQF"
    ∷ codes "EQG"
    ∷ codes "SRR"
    ∷ codes "DTIM"
    ∷ codes "DSND"
    ∷ codes "DFB"
    ∷ codes "DBAS"
    ∷ codes "DWID"
    ∷ []

abbrev pub lfo1_dest_lfo1 : List Bytes
lfo1_dest_lfo1 =
    codes "PAGE"
    ∷ codes "DEST"
    ∷ codes "TRIG"
    ∷ codes "WAVE"
    ∷ codes "MULT"
    ∷ codes "SPD"
    ∷ codes "INTL"
    ∷ codes "DPTH"
    ∷ []

abbrev pub lfo1_dest_lfo2 : List Bytes
lfo1_dest_lfo2 =
    codes "PAGE"
    ∷ codes "DEST"
    ∷ codes "TRIG"
    ∷ codes "WAVE"
    ∷ codes "MULT"
    ∷ codes "SPD"
    ∷ codes "INTL"
    ∷ codes "DPTH"
    ∷ []

abbrev pub lfo1_dest_lfo3 : List Bytes
lfo1_dest_lfo3 =
    codes "PAGE"
    ∷ codes "DEST"
    ∷ codes "TRIG"
    ∷ codes "WAVE"
    ∷ codes "MULT"
    ∷ codes "SPD"
    ∷ codes "INTL"
    ∷ codes "DPTH"
    ∷ []

abbrev pub lfo1_dest_midi : List Bytes
lfo1_dest_midi =
    codes "LEN"
    ∷ codes "VEL"
    ∷ codes "PB"
    ∷ codes "PCHG"
    ∷ codes "CC 1"
    ∷ codes "CC 2"
    ∷ codes "CC 3"
    ∷ codes "CC 4"
    ∷ []

abbrev pub lfo1_trig : List Bytes
lfo1_trig = codes "FREE" ∷ codes "TRIG" ∷ codes "HOLD" ∷ codes "ONE" ∷ codes "HALF" ∷ []

abbrev pub lfo1_wave : List Bytes
lfo1_wave =
    codes "TRI"
    ∷ codes "ITRI"
    ∷ codes "SAW"
    ∷ codes "ISAW"
    ∷ codes "SQR"
    ∷ codes "ISQR"
    ∷ codes "EXP"
    ∷ codes "IEXP"
    ∷ codes "RMP"
    ∷ codes "IRMP"
    ∷ codes "RND"
    ∷ []

abbrev pub lfo1_mult : List Bytes
lfo1_mult =
    codes "1X" ∷ codes "2X" ∷ codes "4X" ∷ codes "8X" ∷ codes "16X" ∷ codes "32X" ∷ codes "64X" ∷ []

abbrev pub lfo2_page : List Bytes
lfo2_page =
    codes "PTCH"
    ∷ codes "SYNT"
    ∷ codes "AMP"
    ∷ codes "FILT"
    ∷ codes "EFFX"
    ∷ codes "LFO1"
    ∷ codes "LFO2"
    ∷ codes "LFO3"
    ∷ codes "MIDI"
    ∷ []

abbrev pub lfo2_dest_ptch : List Bytes
lfo2_dest_ptch =
    codes "1/12"
    ∷ codes "2/12"
    ∷ codes "7/12"
    ∷ codes "1OCT"
    ∷ codes "2OCT"
    ∷ codes "4OCT"
    ∷ codes "8OCT"
    ∷ codes "16OC"
    ∷ []

abbrev pub lfo2_dest_synt : List Bytes
lfo2_dest_synt =
    codes "PAR1"
    ∷ codes "PAR2"
    ∷ codes "PAR3"
    ∷ codes "PAR4"
    ∷ codes "PAR5"
    ∷ codes "PAR6"
    ∷ codes "PAR7"
    ∷ codes "PAR8"
    ∷ []

abbrev pub lfo2_dest_amp : List Bytes
lfo2_dest_amp =
    codes "ATK"
    ∷ codes "HOLD"
    ∷ codes "DEC"
    ∷ codes "REL"
    ∷ codes "DIST"
    ∷ codes "VOL"
    ∷ codes "PAN"
    ∷ codes "PORT"
    ∷ []

abbrev pub lfo2_dest_filt : List Bytes
lfo2_dest_filt =
    codes "BASE"
    ∷ codes "WDTH"
    ∷ codes "HPQ"
    ∷ codes "LPQ"
    ∷ codes "ATK"
    ∷ codes "DEC"
    ∷ codes "BOFS"
    ∷ codes "WOFS"
    ∷ []

abbrev pub lfo2_dest_effx : List Bytes
lfo2_dest_effx =
    codes "EQF"
    ∷ codes "EQG"
    ∷ codes "SRR"
    ∷ codes "DTIM"
    ∷ codes "DSND"
    ∷ codes "DFB"
    ∷ codes "DBAS"
    ∷ codes "DWID"
    ∷ []

abbrev pub lfo2_dest_lfo1 : List Bytes
lfo2_dest_lfo1 =
    codes "PAGE"
    ∷ codes "DEST"
    ∷ codes "TRIG"
    ∷ codes "WAVE"
    ∷ codes "MULT"
    ∷ codes "SPD"
    ∷ codes "INTL"
    ∷ codes "DPTH"
    ∷ []

abbrev pub lfo2_dest_lfo2 : List Bytes
lfo2_dest_lfo2 =
    codes "PAGE"
    ∷ codes "DEST"
    ∷ codes "TRIG"
    ∷ codes "WAVE"
    ∷ codes "MULT"
    ∷ codes "SPD"
    ∷ codes "INTL"
    ∷ codes "DPTH"
    ∷ []

abbrev pub lfo2_dest_lfo3 : List Bytes
lfo2_dest_lfo3 =
    codes "PAGE"
    ∷ codes "DEST"
    ∷ codes "TRIG"
    ∷ codes "WAVE"
    ∷ codes "MULT"
    ∷ codes "SPD"
    ∷ codes "INTL"
    ∷ codes "DPTH"
    ∷ []

abbrev pub lfo2_dest_midi : List Bytes
lfo2_dest_midi =
    codes "LEN"
    ∷ codes "VEL"
    ∷ codes "PB"
    ∷ codes "PCHG"
    ∷ codes "CC 1"
    ∷ codes "CC 2"
    ∷ codes "CC 3"
    ∷ codes "CC 4"
    ∷ []

abbrev pub lfo2_trig : List Bytes
lfo2_trig = codes "FREE" ∷ codes "TRIG" ∷ codes "HOLD" ∷ codes "ONE" ∷ codes "HALF" ∷ []

abbrev pub lfo2_wave : List Bytes
lfo2_wave =
    codes "TRI"
    ∷ codes "ITRI"
    ∷ codes "SAW"
    ∷ codes "ISAW"
    ∷ codes "SQR"
    ∷ codes "ISQR"
    ∷ codes "EXP"
    ∷ codes "IEXP"
    ∷ codes "RMP"
    ∷ codes "IRMP"
    ∷ codes "RND"
    ∷ []

abbrev pub lfo2_mult : List Bytes
lfo2_mult =
    codes "1X" ∷ codes "2X" ∷ codes "4X" ∷ codes "8X" ∷ codes "16X" ∷ codes "32X" ∷ codes "64X" ∷ []

abbrev pub lfo3_page : List Bytes
lfo3_page =
    codes "PTCH"
    ∷ codes "SYNT"
    ∷ codes "AMP"
    ∷ codes "FILT"
    ∷ codes "EFFX"
    ∷ codes "LFO1"
    ∷ codes "LFO2"
    ∷ codes "LFO3"
    ∷ codes "MIDI"
    ∷ []

abbrev pub lfo3_dest_ptch : List Bytes
lfo3_dest_ptch =
    codes "1/12"
    ∷ codes "2/12"
    ∷ codes "7/12"
    ∷ codes "1OCT"
    ∷ codes "2OCT"
    ∷ codes "4OCT"
    ∷ codes "8OCT"
    ∷ codes "16OC"
    ∷ []

abbrev pub lfo3_dest_synt : List Bytes
lfo3_dest_synt =
    codes "PAR1"
    ∷ codes "PAR2"
    ∷ codes "PAR3"
    ∷ codes "PAR4"
    ∷ codes "PAR5"
    ∷ codes "PAR6"
    ∷ codes "PAR7"
    ∷ codes "PAR8"
    ∷ []

abbrev pub lfo3_dest_amp : List Bytes
lfo3_dest_amp =
    codes "ATK"
    ∷ codes "HOLD"
    ∷ codes "DEC"
    ∷ codes "REL"
    ∷ codes "DIST"
    ∷ codes "VOL"
    ∷ codes "PAN"
    ∷ codes "PORT"
    ∷ []

abbrev pub lfo3_dest_filt : List Bytes
lfo3_dest_filt =
    codes "BASE"
    ∷ codes "WDTH"
    ∷ codes "HPQ"
    ∷ codes "LPQ"
    ∷ codes "ATK"
    ∷ codes "DEC"
    ∷ codes "BOFS"
    ∷ codes "WOFS"
    ∷ []

abbrev pub lfo3_dest_effx : List Bytes
lfo3_dest_effx =
    codes "EQF"
    ∷ codes "EQG"
    ∷ codes "SRR"
    ∷ codes "DTIM"
    ∷ codes "DSND"
    ∷ codes "DFB"
    ∷ codes "DBAS"
    ∷ codes "DWID"
    ∷ []

abbrev pub lfo3_dest_lfo1 : List Bytes
lfo3_dest_lfo1 =
    codes "PAGE"
    ∷ codes "DEST"
    ∷ codes "TRIG"
    ∷ codes "WAVE"
    ∷ codes "MULT"
    ∷ codes "SPD"
    ∷ codes "INTL"
    ∷ codes "DPTH"
    ∷ []

abbrev pub lfo3_dest_lfo2 : List Bytes
lfo3_dest_lfo2 =
    codes "PAGE"
    ∷ codes "DEST"
    ∷ codes "TRIG"
    ∷ codes "WAVE"
    ∷ codes "MULT"
    ∷ codes "SPD"
    ∷ codes "INTL"
    ∷ codes "DPTH"
    ∷ []

abbrev pub lfo3_dest_lfo3 : List Bytes
lfo3_dest_lfo3 =
    codes "PAGE"
    ∷ codes "DEST"
    ∷ codes "TRIG"
    ∷ codes "WAVE"
    ∷ codes "MULT"
    ∷ codes "SPD"
    ∷ codes "INTL"
    ∷ codes "DPTH"
    ∷ []

abbrev pub lfo3_dest_midi : List Bytes
lfo3_dest_midi =
    codes "LEN"
    ∷ codes "VEL"
    ∷ codes "PB"
    ∷ codes "PCHG"
    ∷ codes "CC 1"
    ∷ codes "CC 2"
    ∷ codes "CC 3"
    ∷ codes "CC 4"
    ∷ []

abbrev pub lfo3_trig : List Bytes
lfo3_trig = codes "FREE" ∷ codes "TRIG" ∷ codes "HOLD" ∷ codes "ONE" ∷ codes "HALF" ∷ []

abbrev pub lfo3_wave : List Bytes
lfo3_wave =
    codes "TRI"
    ∷ codes "ITRI"
    ∷ codes "SAW"
    ∷ codes "ISAW"
    ∷ codes "SQR"
    ∷ codes "ISQR"
    ∷ codes "EXP"
    ∷ codes "IEXP"
    ∷ codes "RMP"
    ∷ codes "IRMP"
    ∷ codes "RND"
    ∷ []

abbrev pub lfo3_mult : List Bytes
lfo3_mult =
    codes "1X" ∷ codes "2X" ∷ codes "4X" ∷ codes "8X" ∷ codes "16X" ∷ codes "32X" ∷ codes "64X" ∷ []
