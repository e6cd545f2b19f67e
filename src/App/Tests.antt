-- ===== src/App/Tests.antt =====
-- A catalogue with one plugin.
use winforge.Prelude.{◌≡◌, refl, true, false, none, [], ◌∷◌, ◌++◌}
use winforge.Text.{Text, codes, text_eq, trim_space, to_lower, trim_prefix}
use winforge.Errors.{ok, err, not_found}
use winforge.Config.{Tweak}
use winforge.Config.Values.{dword_value}
use winforge.Config.Validate.{check_len, check_count, validate_operation}
use winforge.Config.Catalogue.{validate, display_name}
use winforge.Plugin.{Files, read_plugin_file, add_new, merge_tweaks}
use winforge.Plugin.Discover.{
  Host, load_json_plugin, load_lua_plugin, load_wasm_plugin, load, discover_from, discover,
}
use winforge.App.{merge_plugins, app_tweaks}
use winforge.App.Catalogue.{IsBuilt, app_tweaks-IsBuilt}
use winforge.Tweak.Sample.{ascii, set_start, tweak}

abbrev built_in : Tweak
built_in = record tweak {
  id = codes "dark";
  name = codes "Dark";
  operations = set_start ∷ [];
  reversible = false;
  revert = [];
}

abbrev same_id : Tweak
same_id = record built_in { name = codes "Other" }

abbrev light_tweak : Tweak
light_tweak = record built_in { id = codes "light" }

-- every file is there and holds its own path
abbrev files : Files Text
files = record {
  lstat = λ p. ok (record { is_symlink = false; is_regular = true });
  open_file = λ p. ok p;
  stat = λ f. ok (record { is_symlink = false; is_regular = true });
  same_file = λ p f. true;
  read_all = λ f n. ok f;
  close = λ f. none;
  not_exist = λ e. false;
}

abbrev one_host : Host
one_host = record {
  decode_manifest = λ b. ok (record {
    name = [];
    version = codes "1";
    description = [];
    author = [];
    plugin_type = [];
    script = [];
    module_file = [];
  });
  decode_tweaks = λ b. ok (same_id ∷ light_tweak ∷ []);
  join_path = λ dir name. dir ++ (codes "\\" ++ name);
  base_name = λ name. name;
  run_lua = λ s. err not_found;
  check_wasm = λ s. ok tt;
  run_wasm = λ s. err not_found;
}

built :
    app_tweaks (λ c. c) files one_host false (codes "plugins") (codes "extra" ∷ []) (built_in ∷ [])
    ≡ ok (built_in ∷ light_tweak ∷ [])
unfolding validate validate_operation check_len check_count text_eq trim_space to_lower trim_prefix
    dword_value display_name read_plugin_file add_new merge_tweaks load_json_plugin load_lua_plugin
    load_wasm_plugin load discover_from discover merge_plugins app_tweaks
built = refl

app_tweaks-IsBuilt_example :
    IsBuilt (λ c. c) files one_host false (built_in ∷ []) (built_in ∷ light_tweak ∷ [])
app_tweaks-IsBuilt_example =
    app_tweaks-IsBuilt (λ c. c) files one_host false (codes "plugins") (codes "extra" ∷ [])
      (built_in ∷ []) (built_in ∷ light_tweak ∷ []) built
