-- ===== src/Plugin/Query/Tests.antt =====
-- The theorems about what the host reads, at a new instance of the generator.
use schwung_monomodule.Prelude.{
  ◌≡◌, ◌≢◌, refl, none, some, [], ◌∷◌, arith, ltb, length, if◌then◌else◌,
}
use schwung_monomodule.Prelude.Int.{negsuc}
use schwung_monomodule.Text.{codes, same, base_name, from_first, after}
use schwung_monomodule.Ui.{ParamDef, row}
use schwung_monomodule.Ui.One
use schwung_monomodule.Ui.One.Values.{lfo1_page}
use schwung_monomodule.Plugin.Params.{raw_slot}
use schwung_monomodule.Plugin.Convert.{find_def, to_raw, from_raw}
use schwung_monomodule.Plugin.Entry.{set_param}
use schwung_monomodule.Plugin.Entry.Sounds.{IsValid}
use schwung_monomodule.Plugin.Template.{
  Texts, filled, failed, serve_template, tokens, placeholder, numbered,
}
use schwung_monomodule.Plugin.Template.Served.{IsTexts, rendered, serve_template_lem}
use schwung_monomodule.Plugin.Query.{snprint, get_param}
use schwung_monomodule.Plugin.Query.Keys.{get_param-set_param, IsOrdinary}
use schwung_monomodule.Plugin.Query.Bounds.{get_param-IsValid}
use schwung_monomodule.Plugin.Tests.{one, one-IsTables, fresh, fresh-IsValid, no_number}

abbrev texts : Texts
texts = record {
  hierarchy = codes "{@M@ @S7@}";
  chain_params = codes "[@S0@]";
  compat_hierarchy = codes "{@SYNLEVEL@ @DP1@}";
  compat_syn = record { id = 15; json = codes "<@S7@>" } ∷ [];
  compat_dest = [];
}

texts-IsTexts : IsTexts texts
unfolding tokens placeholder numbered after
texts-IsTexts = record { syn_flat = ground arith; dest_flat = tt }

serve_template_lem_example :
    serve_template one texts fresh.params 100 texts.compat_hierarchy
    ≡ (elim (rendered one texts fresh.params 2 texts.compat_hierarchy) [
      | none ↦ failed
      | some r ↦ if ltb (length r) 100 then filled r else failed
    ])
serve_template_lem_example =
    serve_template_lem one texts fresh.params 100 texts.compat_hierarchy texts-IsTexts (omega arith)

get_param-IsValid_example :
    IsValid (get_param one texts 3 fresh (some (codes "status")) (some 80)).1
get_param-IsValid_example =
    get_param-IsValid one-IsTables texts 3 fresh-IsValid (some (codes "status")) (some 80)

abbrev page_row : ParamDef
page_row = row (codes "lfo1_page") 4 0 2 9 (negsuc 0) 0 (some lfo1_page)

page_row-IsOrdinary : IsOrdinary (base_name (codes "synth:lfo1_page"))
unfolding base_name same
page_row-IsOrdinary = ground arith

page_row-found : find_def one.defs (base_name (codes "synth:lfo1_page")) ≡ some page_row
unfolding find_def base_name from_first after same One.tables
page_row-found = refl

page_row-raw : to_raw one.syn_labels no_number page_row (codes "AMP") fresh.params.machine ≡ some 35
unfolding to_raw
page_row-raw = refl

page_row-slot : (raw_slot one fresh.params page_row).0 ≢ none
unfolding raw_slot
page_row-slot e = ground (arith, e)

get_param-set_param_example :
    (get_param one texts 9
      (set_param one no_number 5 fresh (some (codes "synth:lfo1_page")) (some (codes "AMP")))
      (some (codes "synth:lfo1_page"))
      (some 16)).0
    ≡ some (snprint 16 (from_raw one.syn_labels page_row 35 fresh.params.machine))
get_param-set_param_example =
    get_param-set_param one-IsTables no_number texts 5 fresh-IsValid (codes "synth:lfo1_page")
      (codes "AMP") page_row 35 9 15 page_row-IsOrdinary page_row-found page_row-raw page_row-slot
