-- ===== src/Identity/Persists.antt =====
-- What a run of identity.rs leaves in the key file, for the next run to load.
use meshly_core.Common.{
  ℕ, ◌≡◌, refl, sym, ap, ◌∙◌, inl, inr, true, not, Option, none, some, Bool-cases, nat_eq, list_eq,
  length, Result, ok, err, panic, reject_if-passed, Bytes, Text,
}
use meshly_core.Common.Map.{remove, get, insert}
use meshly_core.Identity.Whole.{get-renamed, seen-some}
use meshly_core.Identity.{
  open_error, read_error, load_key, Keys, Paths, Calls, Files, decode_key, renamed, written, seen,
  in_dir, load_or_write, load_or_generate_at,
}

-- A run that may only read succeeds: the directory is there, and the file is found, opened and read.
pub data CanRead (c : Calls) : Type 0 where
  can_read : c.makes_dir ≡ true → c.stats ≡ true → c.opens ≡ true → c.reads ≡ true → CanRead c

module _ {Key : Type 0} (keys : Keys Key) (paths : Paths) where
  decode_key-to_bytes :
      (key : Key)
      → keys.from_bytes (keys.to_bytes key) ≡ key
      → length (keys.to_bytes key) ≡ 32
      → decode_key keys paths (keys.to_bytes key) ≡ ok key
  unfolding decode_key
  decode_key-to_bytes key h l = rw (l, h) refl

  -- The files hold a key under the name of the key file.
  abbrev Holds : Text → Files → Key → Type 0
  Holds key_file files key =
      (bytes : Bytes) × (get key_file files ≡ some bytes) × (decode_key keys paths bytes ≡ ok key)

  load_key-ok :
      (c : Calls) (bytes : Bytes) (key : Key)
      → load_key keys paths c bytes ≡ ok key
      → decode_key keys paths bytes ≡ ok key
  load_key-ok c bytes key h =
      (reject_if-passed (not c.reads) read_error _
        (reject_if-passed (not c.opens) open_error _ h).1).1

  renamed-Holds :
      (c : Calls) (tmp key_file : Text) (fresh key : Key) (files after : Files)
      → decode_key keys paths (keys.to_bytes fresh) ≡ ok fresh
      → renamed keys paths c tmp key_file fresh files ≡ (ok key, after)
      → Holds key_file after key
  renamed-Holds c tmp key_file fresh key files after good h = elim (Bool-cases c.renames) [
    | inl e ↦
        let q : (ok fresh, insert key_file (keys.to_bytes fresh) (remove tmp files))
            ≡ (ok key, after) =
          simp e at h in
        rw (← ap (λ p. p.1) q) (
          keys.to_bytes fresh,
          get-renamed keys paths key_file (keys.to_bytes fresh) _,
          good ∙ ap (λ p. p.0) q,
        )
    | inr e ↦ cc
  ]

  written-Holds :
      (c : Calls) (tmp key_file : Text) (fresh key : Key) (files after : Files)
      (r : Result ℕ (Unit {0}))
      → decode_key keys paths (keys.to_bytes fresh) ≡ ok fresh
      → written keys paths c tmp key_file fresh files r ≡ (ok key, after)
      → Holds key_file after key
  written-Holds c tmp key_file fresh key files after (ok done) good h =
      renamed-Holds c tmp key_file fresh key _ after good h
  written-Holds c tmp key_file fresh key files after (err part) good h = cc
  written-Holds c tmp key_file fresh key files after panic good h = cc

  load_or_write-Holds :
      (c : Calls) (tmp key_file : Text) (fresh key : Key) (files after : Files)
      (held : Option Bytes)
      → decode_key keys paths (keys.to_bytes fresh) ≡ ok fresh
      → seen keys paths c (get key_file files) ≡ held
      → load_or_write keys paths c tmp key_file fresh held files ≡ (ok key, after)
      → Holds key_file after key
  load_or_write-Holds c tmp key_file fresh key files after (some bytes) good kept h = (
    bytes,
    ap (get key_file) (sym (ap (λ p. p.1) h))
        ∙ seen-some keys paths c (get key_file files) bytes kept,
    load_key-ok c bytes key (ap (λ p. p.0) h),
  )
  load_or_write-Holds c tmp key_file fresh key files after none good gone h =
      elim (Bool-cases c.creates) [
        | inl e ↦ written-Holds c tmp key_file fresh key files after c.writes good (simp e at h)
        | inr e ↦ cc
      ]

  in_dir-Holds :
      (c : Calls) (key_file d : Text) (fresh key : Key) (files after : Files)
      → decode_key keys paths (keys.to_bytes fresh) ≡ ok fresh
      → in_dir keys paths c key_file fresh (some d) files ≡ (ok key, after)
      → Holds key_file after key
  in_dir-Holds c key_file d fresh key files after good h = elim (Bool-cases c.makes_dir) [
    | inl e ↦
        load_or_write-Holds c _ key_file fresh key files after
          (seen keys paths c (get key_file files)) good refl (simp e at h)
    | inr e ↦ cc
  ]

  loaded :
      (c : Calls) (key_file d : Text) (key other : Key) (files : Files)
      → CanRead c
      → Holds key_file files key
      → in_dir keys paths c key_file other (some d) files ≡ (ok key, files)
  loaded c key_file d key other files (can_read dir stats opens reads) (bytes, kept, good) =
      rw (dir, stats, kept, opens, reads, good) refl

  in_dir-again :
      (first second : Calls) (key_file : Text) (dir : Option Text) (fresh other key : Key)
      (files after : Files)
      → decode_key keys paths (keys.to_bytes fresh) ≡ ok fresh
      → CanRead second
      → in_dir keys paths first key_file fresh dir files ≡ (ok key, after)
      → in_dir keys paths second key_file other dir after ≡ (ok key, after)
  in_dir-again first second key_file none fresh other key files after good reads h = cc
  in_dir-again first second key_file (some d) fresh other key files after good reads h =
      loaded second key_file d key other after reads
        (in_dir-Holds first key_file d fresh key files after good h)

  -- The key of a node outlives its runs: after a run that gives a key, whatever was in the files before, every
  -- run whose calls can make the directory, find the file and read it gives the same key and leaves the files as they
  -- are, whatever fresh key it would have drawn; given that the bytes of the first run's fresh key are 32
  -- and make that key again.
  pub identity_persists :
      (first second : Calls) (key_file : Text) (fresh other key : Key) (files after : Files)
      → keys.from_bytes (keys.to_bytes fresh) ≡ fresh
      → length (keys.to_bytes fresh) ≡ 32
      → CanRead second
      → load_or_generate_at keys paths first key_file fresh files ≡ (ok key, after)
      → load_or_generate_at keys paths second key_file other after ≡ (ok key, after)
  unfolding load_or_generate_at
  identity_persists first second key_file fresh other key files after back full reads h =
      in_dir-again first second key_file (paths.parent key_file) fresh other key files after
        (decode_key-to_bytes fresh back full) reads h
