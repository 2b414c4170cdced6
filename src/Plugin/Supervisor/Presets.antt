-- ===== src/Plugin/Supervisor/Presets.antt =====
-- The catalogs of presets as the supervisor replaces them: refreshPresets in supervise of
-- src/plugin/mnm_plugin.cpp. The callback reads the published one without a lock.
pub mod Sparing
use schwung_monomodule.Prelude.{
  ℕ, suc, ◌+◌, ◌%◌, Bool, Option, none, some, List, [], ◌∷◌, ◌++◌, leb, ◌==◌, if◌then◌else◌,
}
use schwung_monomodule.Plugin.Instance.{PresetSound}

-- `Catalog`, at the address that `new` gave it. Addresses are numbered as they are given out.
pub record Listed : Type 0 where
  pub address : ℕ
  pub signature : ℕ
  pub sounds : List PresetSound

-- What `supervise` keeps of them: the published one, and the one it has replaced. `allocated` numbers the
-- next address.
pub record Presets : Type 0 where
  pub catalog : Option Listed
  pub retired : Option Listed
  pub retired_polls : ℕ
  pub dump_polls : ℕ
  pub allocated : ℕ

-- The dump files at a poll: their signature, whether there are any, and what is built of them.
pub record Dumps : Type 0 where
  pub signature : ℕ
  pub are_none : Bool
  pub built : List PresetSound

-- `if (retired) delete retired`: the catalogs that are deleted.
abbrev pub delete : Option Listed → List Listed
delete none = []
delete (some c) = c ∷ []

-- Whether the published catalog is up to date.
unfoldable pub is_current : Option Listed → Dumps → Bool
is_current none d = d.are_none
is_current (some c) d = c.signature == d.signature

-- The first line: a replaced catalog is deleted at its tenth poll.
unfoldable pub expire : Presets → List Listed × Presets
expire p = elim p.retired [
  | none ↦ ([], p)
  | some c ↦
      if leb 10 (suc p.retired_polls)
      then (c ∷ [], record p { retired = none; retired_polls = suc p.retired_polls })
      else ([], record p { retired_polls = suc p.retired_polls })
]

-- From the look at the files on.
unfoldable pub look : Dumps → Presets → List Listed × Presets
unfolding is_current
look d p = if is_current p.catalog d then ([], p) else (
  delete p.retired,
  record p {
    catalog = some (record { address = p.allocated; signature = d.signature; sounds = d.built });
    retired = p.catalog;
    retired_polls = 0;
    allocated = suc p.allocated;
  },
)

-- `refreshPresets`: what it deletes, and what it leaves.
unfoldable pub refresh_presets : Dumps → Presets → List Listed × Presets
unfolding expire look
refresh_presets d p =
    let (old, q) = expire p in
    let counted = record q { dump_polls = suc q.dump_polls } in
    if q.dump_polls % 30 == 0
    then (let (more, r) = look d counted in (old ++ more, r))
    else (old, counted)

-- Polls one after another.
unfoldable pub refresh_all : List Dumps → Presets → Presets
unfolding refresh_presets
refresh_all [] p = p
refresh_all (d ∷ ds) p = refresh_all ds (refresh_presets d p).1

abbrev pub initial : Presets
initial = record {
  catalog = none;
  retired = none;
  retired_polls = 0;
  dump_polls = 0;
  allocated = 0;
}
