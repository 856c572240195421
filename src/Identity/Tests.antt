-- ===== src/Identity/Tests.antt =====
-- Runs on a file system where a key file is not there yet.
use meshly_core.Common.{
  ℕ, ◌≡◌, refl, ap, ◌≢◌, true, false, none, some, [], ◌∷◌, ◌++◌, arith, nat_eq, list_eq, length,
  replicate, ok, err, Bytes, Text, text,
}
use meshly_core.Common.Map.{get, insert, remove}
use meshly_core.Identity.{Keys, Paths, Calls, Files, load_or_generate_at, load_or_generate}
use meshly_core.Identity.Whole.{Whole, load_or_generate_at-Whole}
use meshly_core.Identity.Persists.{can_read, identity_persists}

abbrev raw_keys : Keys Bytes
raw_keys = record { to_bytes = λ key. key; from_bytes = λ bytes. bytes }

abbrev unix_paths : Paths
unix_paths = record { parent = λ path. some (text "cfg"); join = λ dir name. dir ++ (47 ∷ name) }

abbrev working : Calls
working = record {
  makes_dir = true;
  stats = true;
  opens = true;
  reads = true;
  creates = true;
  writes = ok tt;
  renames = true;
}

abbrev cut_off : Calls
cut_off = record working { writes = err 5 }

abbrev key_path : Text
key_path = text "cfg/identity.key"

abbrev drawn : Bytes
drawn = replicate 32 7

abbrev drawn_later : Bytes
drawn_later = replicate 32 9

abbrev tmp_path : Text
tmp_path = text "cfg/.identity.key.tmp"

abbrev after_first : Files
after_first = insert key_path drawn (remove tmp_path (insert tmp_path drawn []))

first_run :
    load_or_generate_at raw_keys unix_paths working key_path drawn [] ≡ (ok drawn, after_first)
unfolding load_or_generate_at get
first_run = refl

lengths_apart : ◌≢◌ {A = ℕ} 21 16
lengths_apart h = omega arith

tmp_path-key_path : tmp_path ≢ key_path
tmp_path-key_path q = lengths_apart (ap length q)

tmp_apart :
    (d : Text)
    → some (text "cfg") ≡ some d
    → unix_paths.join d (text ".identity.key.tmp") ≢ key_path
tmp_apart d e = let same : text "cfg" ≡ d = cc e in rw (← same) tmp_path-key_path

load_or_generate_at-Whole_example :
    Whole raw_keys unix_paths cut_off key_path [] drawn
      (load_or_generate_at raw_keys unix_paths cut_off key_path drawn []).1
load_or_generate_at-Whole_example =
    load_or_generate_at-Whole raw_keys unix_paths cut_off key_path drawn [] tmp_apart

identity_persists_example :
    load_or_generate_at raw_keys unix_paths working key_path drawn_later after_first
    ≡ (ok drawn, after_first)
identity_persists_example =
    identity_persists raw_keys unix_paths working working key_path drawn drawn_later drawn []
      after_first refl refl (can_read refl refl refl refl) first_run

-- A key file that the call behind `exists` does not find is replaced.
replaced :
    get key_path
      (load_or_generate_at raw_keys unix_paths
        (record working { stats = false })
        key_path
        drawn_later
        after_first).1
    ≡ some drawn_later
unfolding load_or_generate_at get insert remove
replaced = refl

default_place :
    load_or_generate raw_keys unix_paths working (some (text "cfg")) drawn []
    ≡ load_or_generate_at raw_keys unix_paths working (text "cfg/meshly-core/identity.key") drawn []
unfolding load_or_generate
default_place = refl

no_place : (load_or_generate raw_keys unix_paths working none drawn []).1 ≡ []
unfolding load_or_generate
no_place = refl
