-- ===== src/Text/Tests.antt =====
-- The C library's functions at concrete texts.
use schwung_monomodule.Prelude.{◌≡◌, refl, none, some, []}
use schwung_monomodule.Prelude.Int.{pos, negsuc}
use schwung_monomodule.Text.{codes, base_name, from_first, after, strtol, atoi, print}

base_name_runs :
    (base_name (codes "synth:state") ≡ codes "state")
    × (base_name (codes "a:b:level") ≡ codes "level")
    × (base_name (codes "depth") ≡ codes "depth")
unfolding base_name from_first after
base_name_runs = (refl, refl, refl)

strtol_runs :
    (strtol (codes " -12,5") ≡ some (negsuc 11, codes ",5"))
    × (strtol (codes "+7") ≡ some (pos 7, []))
    × (strtol (codes "x") ≡ none)
    × (atoi (codes "") ≡ pos 0)
unfolding strtol atoi
strtol_runs = (refl, refl, refl, refl)

print_runs : (print (pos 1056) ≡ codes "1056") × (print (negsuc 63) ≡ codes "-64")
unfolding print
print_runs = (refl, refl)
