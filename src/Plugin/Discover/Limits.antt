-- ===== src/Plugin/Discover/Limits.antt =====
-- The plugins that are found are within the limits, and their tweaks are accepted.
use winforge.Prelude.{
  ℕ, suc, ◌+◌, ◌≤◌, ◌≡◌, refl, arith, Bool, true, false, List, [], ◌∷◌, length, ltb, leb, All,
  if◌then◌else◌,
}
use mathlib.Core.Path.{subst}
use winforge.Text.{Text, codes, text_eq, CaseTable}
use winforge.Errors.{
  Result, ok, err, ◌>>=◌, ◌>>◌, too_many_plugins, too_many_plugin_tweaks, plugin_type_unknown,
}
use winforge.Config.{Tweak}
use winforge.Config.Catalogue.{validate}
use winforge.Config.Catalogue.Accepted.{IsValid, Distinct, validate-IsValid}
use winforge.Config.Validate.Accepted.{>>=-ok}
use winforge.Plugin.{Files, read_plugin_file}
use winforge.Plugin.Discover.{
  Manifest, Plugin, Host, wrap, validated, json_file, type_of, load_json_plugin, load_lua_plugin,
  load_wasm_plugin, load_as, load, admit, take_plugin, discover_from, discover,
}

-- the tweaks of all the plugins
abbrev pub total_tweaks : List Plugin → ℕ
total_tweaks [] = 0
total_tweaks (p ∷ plugins) = length p.tweaks + total_tweaks plugins

ok-injective : {A : Type 0} {a b : A} → ok a ≡ ok b → a ≡ b
ok-injective h = cc

module _ ⦃c : CaseTable⦄ (upper : ℕ → ℕ) {F : Type 0} (fs : Files F) (host : Host) where
  abbrev pub AllValid : List Tweak → Type 0
  AllValid tweaks = All (λ t. IsValid t) tweaks

  wrap-ok : {A : Type 0} (r : Result A) {a : A} → wrap r ≡ ok a → r ≡ ok a
  wrap-ok (err e) h = cc
  wrap-ok (ok b) h = h

  -- the tweaks of a plugin: accepted, and no id comes twice
  abbrev pub IsCatalogue : List Tweak → Type 0
  IsCatalogue tweaks = Distinct [] tweaks × AllValid tweaks

  validate-IsCatalogue :
      (ts tweaks : List Tweak) → wrap (validate upper ts) ≡ ok tweaks → IsCatalogue tweaks
  validate-IsCatalogue ts tweaks h =
      let (distinct, valid, same) = validate-IsValid upper ts tweaks (wrap-ok _ h) in
      (distinct, valid)

  validated-IsCatalogue :
      (r : Result (List Tweak)) (tweaks : List Tweak)
      → validated upper fs host r ≡ ok tweaks
      → IsCatalogue tweaks
  validated-IsCatalogue r tweaks h =
      let (ts, e, rest) = >>=-ok r _ h in validate-IsCatalogue ts tweaks rest

  json_file-IsCatalogue :
      (r : Result Text) (tweaks : List Tweak)
      → json_file upper fs host r ≡ ok tweaks
      → IsCatalogue tweaks
  json_file-IsCatalogue (ok b) tweaks h =
      validated-IsCatalogue (wrap (host.decode_tweaks b)) tweaks h
  json_file-IsCatalogue (err e) tweaks h = absent (fs.not_exist e) h
    where
      absent : (b : Bool) → (if b then ok [] else err e) ≡ ok tweaks → IsCatalogue tweaks
      absent true k = subst IsCatalogue (ok-injective k) (tt, tt)
      absent false k = cc

  load_lua_plugin-IsCatalogue :
      (dir : Text) (m : Manifest) (tweaks : List Tweak)
      → load_lua_plugin upper fs host dir m ≡ ok tweaks
      → IsCatalogue tweaks
  unfolding load_lua_plugin
  load_lua_plugin-IsCatalogue dir m tweaks h =
      let (source, e, rest) = >>=-ok _ (λ s. validated upper fs host (wrap (host.run_lua s))) h in
      validated-IsCatalogue (wrap (host.run_lua source)) tweaks rest

  load_wasm_plugin-IsCatalogue :
      (dir : Text) (m : Manifest) (tweaks : List Tweak)
      → load_wasm_plugin upper fs host dir m ≡ ok tweaks
      → IsCatalogue tweaks
  unfolding load_wasm_plugin
  load_wasm_plugin-IsCatalogue dir m tweaks h =
      let (bytes, e, rest) =
        >>=-ok _ (λ b. host.check_wasm b >> validated upper fs host (wrap (host.run_wasm b))) h in
      let (u, e', rest') = >>=-ok (host.check_wasm bytes) _ rest in
      validated-IsCatalogue (wrap (host.run_wasm bytes)) tweaks rest'

  load_as-IsCatalogue :
      (kind dir : Text) (m : Manifest) (tweaks : List Tweak)
      → load_as upper fs host kind dir m ≡ ok tweaks
      → IsCatalogue tweaks
  unfolding load_json_plugin
  load_as-IsCatalogue kind dir m tweaks h =
      of_kind (text_eq kind (codes "lua")) (text_eq kind (codes "wasm"))
        (text_eq kind (codes "json")) h
    where
      of_kind :
          (lua wasm json : Bool)
          → (if lua
              then load_lua_plugin upper fs host dir m
              else if wasm
              then load_wasm_plugin upper fs host dir m
              else if json
              then load_json_plugin upper fs host dir
              else err plugin_type_unknown)
            ≡ ok tweaks
          → IsCatalogue tweaks
      of_kind true wasm json k = load_lua_plugin-IsCatalogue dir m tweaks k
      of_kind false true json k = load_wasm_plugin-IsCatalogue dir m tweaks k
      of_kind false false true k = json_file-IsCatalogue _ tweaks k
      of_kind false false false k = cc

  load-IsCatalogue :
      (dir id : Text) (p : Plugin) → load upper fs host dir id ≡ ok p → IsCatalogue p.tweaks
  unfolding load
  load-IsCatalogue dir id p h =
      let (b, e1, h1) =
        >>=-ok (read_plugin_file fs (host.join_path dir (codes "manifest.json"))) _ h in
      let (m, e2, h2) = >>=-ok (wrap (host.decode_manifest b)) _ h1 in
      let (tweaks, e3, h3) = >>=-ok (load_as upper fs host (type_of upper fs host m) dir m) _ h2 in
      subst (λ q. IsCatalogue q.tweaks) (ok-injective h3) (load_as-IsCatalogue _ dir m tweaks e3)

  -- the limits on the plugins, after `count` of them with `total` tweaks
  pub record IsLimited (count total : ℕ) (plugins : List Plugin) : Type 0 where
    pub few : count + length plugins ≤ 256
    pub small : total + total_tweaks plugins ≤ 10000
    pub accepted : All (λ p. IsCatalogue p.tweaks) plugins

  abbrev More : (ℕ → ℕ → Result (List Plugin)) → Type 0
  More more =
      (count total : ℕ) (plugins : List Plugin)
      → count ≤ 256
      → total ≤ 10000
      → more count total ≡ ok plugins
      → IsLimited count total plugins

  admit-IsLimited :
      (count total : ℕ) (p : Plugin) (more : ℕ → ℕ → Result (List Plugin)) (plugins : List Plugin)
      → IsCatalogue p.tweaks
      → More more
      → admit upper fs host count total p more ≡ ok plugins
      → IsLimited count total plugins
  admit-IsLimited count total p more plugins valid k h =
      within (leb 256 count) (ltb 10000 (total + length p.tweaks)) refl refl h
    where
      joined :
          (rest : List Plugin)
          → IsLimited (suc count) (total + length p.tweaks) rest
          → IsLimited count total (p ∷ rest)
      joined rest l =
          let few = l.few in
          let small = l.small in
          record { few = omega arith; small = omega arith; accepted = (valid, l.accepted) }

      within :
          (full large : Bool)
          → leb 256 count ≡ full
          → ltb 10000 (total + length p.tweaks) ≡ large
          → (if full
              then err too_many_plugins
              else if large
              then err too_many_plugin_tweaks
              else (more (suc count) (total + length p.tweaks) >>= λ rest. ok (p ∷ rest)))
            ≡ ok plugins
          → IsLimited count total plugins
      within true large e d g = cc
      within false true e d g = cc
      within false false e d g =
          let (rest, found, same) = >>=-ok (more (suc count) (total + length p.tweaks)) _ g in
          subst (IsLimited count total) (ok-injective same) (
            joined rest
              (k (suc count) (total + length p.tweaks) rest (ground arith) (ground arith) found))

  take_plugin-IsLimited :
      (r : Result Plugin) (count total : ℕ) (more : ℕ → ℕ → Result (List Plugin))
      (plugins : List Plugin)
      → ((p : Plugin) → r ≡ ok p → IsCatalogue p.tweaks)
      → More more
      → count ≤ 256
      → total ≤ 10000
      → take_plugin upper fs host r count total more ≡ ok plugins
      → IsLimited count total plugins
  take_plugin-IsLimited (err e) count total more plugins valid k few small h =
      k count total plugins few small h
  take_plugin-IsLimited (ok p) count total more plugins valid k few small h =
      admit-IsLimited count total p more plugins (valid p refl) k h

  discover_from-IsLimited :
      (root : Text) (names : List Text)
      → More (λ count total. discover_from upper fs host root count total names)
  unfolding discover_from
  discover_from-IsLimited root [] count total plugins few small h =
      subst (IsLimited count total) (ok-injective h)
        (record { few = omega arith; small = omega arith; accepted = tt })
  discover_from-IsLimited root (name ∷ names) count total plugins few small h =
      take_plugin-IsLimited (load upper fs host (host.join_path root name) name) count total _
        plugins (λ p e. load-IsCatalogue (host.join_path root name) name p e)
        (discover_from-IsLimited root names) few small h

  -- The plugins that are found are at most 256, have at most 10000 tweaks together, and each has a
  -- catalogue that Validate accepts, whatever its files and scripts are.
  pub discover-IsLimited :
      (root : Text) (names : List Text) (plugins : List Plugin)
      → discover upper fs host root names ≡ ok plugins
      → IsLimited 0 0 plugins
  unfolding discover
  discover-IsLimited root names plugins h =
      discover_from-IsLimited root names 0 0 plugins (ground arith) (ground arith) h
