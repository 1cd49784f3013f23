-- ===== src/Config/Load.antt =====
-- src/cfg.cpp, `load` and `reload`: the outcomes for each kind of file.
use mathlib.Core.Path.{subst}
use swordfishd.Base.{◌≡◌, refl, Option, none, some, Bytes}
use swordfishd.Config.{
  PropertyTree, Config, ConfigFault, file_not_found, ini_error, File, missing, malformed, ini,
  reload, load,
}

-- What a load did, against what the file is.
abbrev pub IsLoaded : File → Bytes → PropertyTree → Config × Option ConfigFault → Type 0
IsLoaded missing path old r = (r.1 ≡ some (file_not_found path)) × (r.0.tree ≡ old)
IsLoaded malformed path old r = (r.1 ≡ some ini_error) × (r.0.tree ≡ old)
IsLoaded (ini t) path old r = (r.1 ≡ none) × (r.0.tree ≡ t)

reload-IsLoaded :
    (files : Bytes → File) (cfg : Config)
    → IsLoaded (files cfg.path) cfg.path cfg.tree (reload files cfg)
unfolding reload
reload-IsLoaded files cfg = cases (files cfg.path)
  where
    cases :
        (f : File)
        → IsLoaded f cfg.path cfg.tree (elim f as (λ x. Config × Option ConfigFault) [
          | missing ↦ (cfg, some (file_not_found cfg.path))
          | malformed ↦ (cfg, some ini_error)
          | ini t ↦ (record cfg { tree = t }, none)
        ])
    cases missing = (refl, refl)
    cases malformed = (refl, refl)
    cases (ini t) = (refl, refl)

reload-path : (files : Bytes → File) (cfg : Config) → (reload files cfg).0.path ≡ cfg.path
unfolding reload
reload-path files cfg = cases (files cfg.path)
  where
    cases :
        (f : File)
        → (elim f as (λ x. Config × Option ConfigFault) [
          | missing ↦ (cfg, some (file_not_found cfg.path))
          | malformed ↦ (cfg, some ini_error)
          | ini t ↦ (record cfg { tree = t }, none)
        ]).0.path
          ≡ cfg.path
    cases missing = refl
    cases malformed = refl
    cases (ini t) = refl

-- `load` takes the settings of an ini file, throws for a missing or malformed file and then keeps
-- the settings. It keeps the new path in each case: a later `reload` ends as that file's content
-- then says.
pub load-IsLoaded :
    (files later : Bytes → File) (path : Bytes) (cfg : Config)
    → IsLoaded (files path) path cfg.tree (load files path cfg)
      × ((load files path cfg).0.path ≡ path)
      × IsLoaded
          (later path)
          path
          (load files path cfg).0.tree
          (reload later (load files path cfg).0)
unfolding load reload
load-IsLoaded files later path cfg =
    let start : Config = record cfg { path = path } in
    let after = (reload files start).0 in
    let same : after.path ≡ path = reload-path files start in
    (
      reload-IsLoaded files start,
      same,
      subst (λ p. IsLoaded (later p) p after.tree (reload later after)) same
          (reload-IsLoaded later after),
    )
