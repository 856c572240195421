-- ===== src/Identity.antt =====
-- The key file of a node, crates/common/src/identity.rs: it is loaded, or made and renamed into place.
pub mod Whole
pub mod Persists
mod Tests
use mathlib.Core.Option
use meshly_core.Common.{
  ℕ, Bool, not, Option, none, some, ◌∷◌, [], nat_beq, if◌then◌else◌, length, take, nat_eq, list_eq,
  Result, ok, err, panic, ◌>>◌, ◌>>=◌, reject_if, Bytes, Text, text,
}
use meshly_core.Common.Map.{Map, get, insert, remove}

-- `SecretKey` of iroh: its bytes, and the key that 32 bytes are.
pub record Keys (Key : Type 0) : Type 0 where
  pub to_bytes : Key → Bytes
  pub from_bytes : Bytes → Key

-- The directory of a path, and a name in a directory, of `std::path`.
pub record Paths : Type 0 where
  pub parent : Text → Option Text
  pub join : Text → Text → Text

-- Which calls of the file system succeed; `stats` is the one behind `exists`, and a write that fails leaves a
-- part of the file.
pub record Calls : Type 0 where
  pub makes_dir : Bool
  pub stats : Bool
  pub opens : Bool
  pub reads : Bool
  pub creates : Bool
  pub writes : Result ℕ (Unit {0})
  pub renames : Bool

pub data IdentityError : Type 0 where
  no_parent : IdentityError
  dir_error : IdentityError
  open_error : IdentityError
  read_error : IdentityError
  wrong_length : ℕ → IdentityError
  create_error : IdentityError
  write_error : IdentityError
  rename_error : IdentityError
  no_config_dir : IdentityError

abbrev pub Files : Type 0
Files = Map Text Bytes

module _ {Key : Type 0} (keys : Keys Key) (paths : Paths) where
  unfoldable pub decode_key : Bytes → Result IdentityError Key
  decode_key bytes =
      if nat_beq (length bytes) 32
      then ok (keys.from_bytes bytes)
      else err (wrong_length (length bytes))

  -- The branch of a file that exists.
  abbrev pub load_key : Calls → Bytes → Result IdentityError Key
  load_key c bytes = do
    reject_if (not c.opens) open_error
    reject_if (not c.reads) read_error
    decode_key bytes

  abbrev pub renamed : Calls → Text → Text → Key → Files → Result IdentityError Key × Files
  renamed c tmp key_file key files =
      if c.renames
      then (ok key, insert key_file (keys.to_bytes key) (remove tmp files))
      else (err rename_error, files)

  abbrev pub written :
      Calls → Text → Text → Key → Files → Result ℕ (Unit {0}) → Result IdentityError Key × Files
  written c tmp key_file key files (ok done) =
      renamed c tmp key_file key (insert tmp (keys.to_bytes key) files)
  written c tmp key_file key files (err part) =
      (err write_error, insert tmp (take part (keys.to_bytes key)) files)
  written c tmp key_file key files panic = (panic, files)

  -- `key` is what `SecretKey::generate` gives.
  abbrev pub write_key : Calls → Text → Text → Key → Files → Result IdentityError Key × Files
  write_key c tmp key_file key files =
      if c.creates then written c tmp key_file key files c.writes else (err create_error, files)

  abbrev pub load_or_write :
      Calls → Text → Text → Key → Option Bytes → Files → Result IdentityError Key × Files
  load_or_write c tmp key_file key (some bytes) files = (load_key c bytes, files)
  load_or_write c tmp key_file key none files = write_key c tmp key_file key files

  -- `exists` is false when its call fails.
  abbrev pub seen : Calls → Option Bytes → Option Bytes
  seen c held = if c.stats then held else none

  abbrev pub in_dir : Calls → Text → Key → Option Text → Files → Result IdentityError Key × Files
  in_dir c key_file key none files = (err no_parent, files)
  in_dir c key_file key (some dir) files =
      if c.makes_dir
      then load_or_write c (paths.join dir (text ".identity.key.tmp")) key_file key
          (seen c (get key_file files)) files
      else (err dir_error, files)

  unfoldable pub load_or_generate_at : Calls → Text → Key → Files → Result IdentityError Key × Files
  unfolding decode_key
  load_or_generate_at c key_file key files = in_dir c key_file key (paths.parent key_file) files

  -- `config_dir` is what `dirs::config_dir` gives.
  unfoldable pub load_or_generate :
      Calls → Option Text → Key → Files → Result IdentityError Key × Files
  load_or_generate c none key files = (err no_config_dir, files)
  load_or_generate c (some base) key files =
      let dir = paths.join base (text "meshly-core") in
      load_or_generate_at c (paths.join dir (text "identity.key")) key files
