-- ===== src/Plugin/Discover.antt =====
-- internal/plugin/plugin.go: load and DiscoverWithOptions.
pub mod Limits
use winforge.Prelude.{
  ℕ, suc, ◌+◌, ◌≡◌, Bool, true, false, not, ◌&&◌, ◌||◌, Option, none, some, List, [], ◌∷◌, ◌++◌,
  length, ltb, leb, if◌then◌else◌,
}
use winforge.Text.{Text, codes, text_eq, trim_space, is_empty, to_lower, CaseTable}
use winforge.Errors.{
  Err, Result, ok, err, ◌>>=◌, ◌>>◌, refuse, wrapped, too_many_plugins, too_many_plugin_tweaks,
  plugin_type_unknown, plugin_file_is_path,
}
use winforge.Config.{Tweak}
use winforge.Config.Catalogue.{validate}
use winforge.Plugin.{Files, read_plugin_file}

pub record Manifest : Type 0 where
  pub name : Text
  pub version : Text
  pub description : Text
  pub author : Text
  pub plugin_type : Text
  pub script : Text
  pub module_file : Text

pub record Plugin : Type 0 where
  pub id : Text
  pub name : Text
  pub version : Text
  pub description : Text
  pub author : Text
  pub plugin_type : Text
  pub dir : Text
  pub tweaks : List Tweak

-- config.DecodeJSON, filepath.Join and filepath.Base, and the runtimes: a script gives the tweaks that
-- it proposes. `check_wasm` is the limit of a module's size and validateWasmModule.
pub record Host : Type 0 where
  pub decode_manifest : Text → Result Manifest
  pub decode_tweaks : Text → Result (List Tweak)
  pub join_path : Text → Text → Text
  pub base_name : Text → Text
  pub run_lua : Text → Result (List Tweak)
  pub check_wasm : Text → Result (Unit {0})
  pub run_wasm : Text → Result (List Tweak)

abbrev pub wrap {ℓ} : {A : Type ℓ} → Result A → Result A
wrap (err e) = err (wrapped e)
wrap (ok a) = ok a

abbrev or_text : Text → Text → Text
or_text s default = if is_empty s then default else s

module _ ⦃c : CaseTable⦄ (upper : ℕ → ℕ) {F : Type 0} (fs : Files F) (host : Host) where
  -- the tweaks of a set are checked by the Validate method of the catalogue
  abbrev pub validated : Result (List Tweak) → Result (List Tweak)
  validated r = r >>= λ tweaks. wrap (validate upper tweaks)

  abbrev pub json_file : Result Text → Result (List Tweak)
  json_file (ok b) = validated (wrap (host.decode_tweaks b))
  json_file (err e) = if fs.not_exist e then ok [] else err e

  unfoldable pub load_json_plugin : Text → Result (List Tweak)
  unfolding read_plugin_file
  load_json_plugin dir = json_file (read_plugin_file fs (host.join_path dir (codes "tweaks.json")))

  unfoldable pub load_lua_plugin : Text → Manifest → Result (List Tweak)
  unfolding read_plugin_file
  load_lua_plugin dir m =
      let name = or_text (trim_space m.script) (codes "pack.lua") in
      (refuse (not (text_eq (host.base_name name) name)) plugin_file_is_path
        >> wrap (read_plugin_file fs (host.join_path dir name)))
      >>= λ source. validated (wrap (host.run_lua source))

  unfoldable pub load_wasm_plugin : Text → Manifest → Result (List Tweak)
  unfolding read_plugin_file
  load_wasm_plugin dir m =
      let name =
        or_text (or_text (trim_space m.module_file) (trim_space m.script)) (codes "pack.wasm") in
      (refuse (not (text_eq (host.base_name name) name)) plugin_file_is_path
        >> wrap (read_plugin_file fs (host.join_path dir name)))
      >>= λ bytes. (host.check_wasm bytes >> validated (wrap (host.run_wasm bytes)))

  abbrev pub load_as : Text → Text → Manifest → Result (List Tweak)
  load_as kind dir m =
      if text_eq kind (codes "lua")
      then load_lua_plugin dir m
      else if text_eq kind (codes "wasm")
      then load_wasm_plugin dir m
      else if text_eq kind (codes "json")
      then load_json_plugin dir
      else err plugin_type_unknown

  abbrev pub type_of : Manifest → Text
  type_of m = or_text (to_lower (trim_space m.plugin_type)) (codes "json")

  abbrev pub plugin_of : Text → Text → Manifest → List Tweak → Plugin
  plugin_of dir id m tweaks = record {
    id = id;
    name = or_text m.name id;
    version = m.version;
    description = m.description;
    author = m.author;
    plugin_type = type_of m;
    dir = dir;
    tweaks = tweaks;
  }

  unfoldable pub load : Text → Text → Result Plugin
  unfolding load_json_plugin load_lua_plugin load_wasm_plugin
  load dir id = do
    b ← read_plugin_file fs (host.join_path dir (codes "manifest.json"))
    m ← wrap (host.decode_manifest b)
    tweaks ← load_as (type_of m) dir m
    ok (plugin_of dir id m tweaks)

  -- what the loop makes of a plugin that was loaded; the limits end the discovery
  abbrev pub admit :
      (count total : ℕ) → Plugin → (ℕ → ℕ → Result (List Plugin)) → Result (List Plugin)
  admit count total p more =
      if leb 256 count
      then err too_many_plugins
      else if ltb 10000 (total + length p.tweaks)
      then err too_many_plugin_tweaks
      else (more (suc count) (total + length p.tweaks) >>= λ plugins. ok (p ∷ plugins))

  abbrev pub take_plugin :
      Result Plugin → (count total : ℕ) → (ℕ → ℕ → Result (List Plugin)) → Result (List Plugin)
  take_plugin (err e) count total more = more count total
  take_plugin (ok p) count total more = admit count total p more

  -- the loop of DiscoverWithOptions over the names of the directories that have a manifest
  unfoldable pub discover_from : Text → (count total : ℕ) → List Text → Result (List Plugin)
  unfolding load
  discover_from root count total [] = ok []
  discover_from root count total (name ∷ names) =
      take_plugin (load (host.join_path root name) name) count total
        (λ count' total'. discover_from root count' total' names)

  unfoldable pub discover : Text → List Text → Result (List Plugin)
  unfolding discover_from
  discover root names = discover_from root 0 0 names
