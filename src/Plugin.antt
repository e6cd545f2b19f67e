-- ===== src/Plugin.antt =====
-- internal/plugin/plugin.go: reading the files of a plugin, and the tweaks that plugins add. The file
-- system, package json and the runtimes of Lua and WebAssembly are parameters.
pub mod Discover
pub mod Merged
use winforge.Prelude.{
  ℕ, suc, ◌+◌, ◌-◌, ◌≡◌, Bool, true, false, not, ◌&&◌, ◌||◌, Option, none, some, List, [], ◌∷◌,
  ◌++◌, length, any, ltb, leb, if◌then◌else◌,
}
use winforge.Text.{Text, codes, text_eq, is_empty}
use winforge.Errors.{
  Err, Result, ok, err, ◌>>=◌, ◌>>◌, refuse, joined, not_regular, file_changed, file_too_large,
}
use winforge.Config.{Tweak}
use winforge.AppManager.{byte_length}

pub record FileInfo : Type 0 where
  pub is_symlink : Bool
  pub is_regular : Bool

-- Package os with open files `F`; the content is read up to a number of bytes, and `close` gives its
-- error. `not_exist` is os.IsNotExist.
pub record Files (F : Type 0) : Type 0 where
  pub lstat : Text → Result FileInfo
  pub open_file : Text → Result F
  pub stat : F → Result FileInfo
  pub same_file : Text → F → Bool
  pub read_all : F → ℕ → Result Text
  pub close : F → Option Err
  pub not_exist : Err → Bool

abbrev max_plugin_file_bytes : ℕ
max_plugin_file_bytes = 8388608

-- errors.Join(err, f.Close())
abbrev and_close : Err → Option Err → Err
and_close e none = e
and_close e (some d) = joined e d

-- the end of readPluginFile: the errors of the read and of the close, and the limit
abbrev finished : Result Text → Option Err → Result Text
finished (err e) closing = err (and_close e closing)
finished (ok b) (some d) = err d
finished (ok b) none =
    if ltb max_plugin_file_bytes (byte_length b) then err file_too_large else ok b

module _ {F : Type 0} (fs : Files F) where
  abbrev opened : Text → F → Result FileInfo → Result Text
  opened path f (err e) = err (and_close e (fs.close f))
  opened path f (ok info) =
      if not info.is_regular || not (fs.same_file path f)
      then err (and_close file_changed (fs.close f))
      else finished (fs.read_all f (max_plugin_file_bytes + 1)) (fs.close f)

  unfoldable pub read_plugin_file : Text → Result Text
  read_plugin_file path = do
    expected ← fs.lstat path
    refuse (expected.is_symlink || not expected.is_regular) not_regular
    f ← fs.open_file path
    opened path f (fs.stat f)

-- the ids in a set of ids and a list of tweaks
abbrev pub seen_after : List Text → List Tweak → List Text
seen_after seen [] = seen
seen_after seen (t ∷ ts) = seen_after (t.id ∷ seen) ts

abbrev pub unless_seen : Tweak → List Text → (List Text → List Tweak) → List Tweak
unless_seen t seen more =
    if is_empty t.id || any (text_eq t.id) seen then more seen else t ∷ more (t.id ∷ seen)

-- the second loop of MergeTweaks
unfoldable pub add_new : List Text → List Tweak → List Tweak
add_new seen [] = []
add_new seen (t ∷ ts) = unless_seen t seen (λ seen'. add_new seen' ts)

unfoldable pub merge_tweaks : (base extra : List Tweak) → List Tweak
unfolding add_new
merge_tweaks base extra = base ++ add_new (seen_after [] base) extra
