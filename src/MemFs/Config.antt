-- ===== src/MemFs/Config.antt =====
-- `MemFsConfig` of crates/nfs3_server/src/memfs/config.rs. A path is the list of its bytes.
use nfs.Prelude.{ℕ, zero, suc, Bool, true, false, none, some, List, [], ◌∷◌, ◌++◌, length}
use mathlib.Core.List.{reverse}
use nfs.Vfs.FileSystem.{split}
use nfs.Server.Text.{strip_prefix}
use nfs.MemFs.Served.{MemFsConfigEntry}

-- `split(DELIMITER).next_back()`, which always has an item.
abbrev pub last_of : List (List ℕ) → List ℕ
last_of [] = []
last_of (component ∷ []) = component
last_of (component ∷ other ∷ components) = last_of (other ∷ components)

-- The pattern taken off the front as often as it stands there; each time takes a byte at least.
unfoldable pub trim_front : ℕ → List ℕ → List ℕ → List ℕ
trim_front fuel [] path = path
trim_front zero (c ∷ pattern) path = path
trim_front (suc fuel) (c ∷ pattern) path = elim (strip_prefix (c ∷ pattern) path) [
  | none ↦ path
  | some rest ↦ trim_front fuel (c ∷ pattern) rest
]

-- `trim_end_matches`
unfoldable pub trim_end_matches : List ℕ → List ℕ → List ℕ
trim_end_matches name path = reverse (trim_front (length path) (reverse name) (reverse path))

abbrev pub config_entry : List ℕ → Bool → List ℕ → MemFsConfigEntry
config_entry path is_dir content = record {
  parent = trim_end_matches (last_of (split path)) path;
  name = last_of (split path);
  is_dir = is_dir;
  content = content;
}

-- `MemFsConfig::add_dir` and `MemFsConfig::add_file`, on the entries of the configuration.
unfoldable pub add_dir : List ℕ → List MemFsConfigEntry → List MemFsConfigEntry
add_dir path entries = entries ++ (config_entry path true [] ∷ [])

unfoldable pub add_file : List ℕ → List ℕ → List MemFsConfigEntry → List MemFsConfigEntry
add_file path content entries = entries ++ (config_entry path false content ∷ [])
