-- ===== src/Identity/Whole.antt =====
-- What a run of identity.rs does to the key file, whatever fails.
use meshly_core.Common.{
  ℕ, ◌≡◌, refl, ◌∙◌, ◌≢◌, ◌⊎◌, inl, inr, false, Option, none, some, arith, Bool-cases, eq_iff,
  nat_eq, list_eq, Result, ok, err, panic, Bytes, Text, text,
}
use meshly_core.Common.Map.{get, insert, get-insert}
use meshly_core.Identity.{
  Keys, Paths, Calls, Files, renamed, written, seen, write_key, in_dir, load_or_write,
  load_or_generate_at,
}

module _ {Key : Type 0} (keys : Keys Key) (paths : Paths) where
  -- The key file is as it was, or all of the fresh key is there, in place of nothing or of what the run could
  -- not see.
  abbrev pub Whole : Calls → Text → Files → Key → Files → Type 0
  Whole c key_file before key after =
      (get key_file after ≡ get key_file before)
      ⊎ (((get key_file before ≡ none) ⊎ (c.stats ≡ false))
          × (get key_file after ≡ some (keys.to_bytes key)))

  seen-none :
      (c : Calls) (held : Option Bytes)
      → seen keys paths c held ≡ none
      → (held ≡ none) ⊎ (c.stats ≡ false)
  seen-none c held h = elim (Bool-cases c.stats) [ inl e ↦ inl (simp e at h) | inr e ↦ inr e ]

  pub seen-some :
      (c : Calls) (held : Option Bytes) (bytes : Bytes)
      → seen keys paths c held ≡ some bytes
      → held ≡ some bytes
  seen-some c held bytes h = elim (Bool-cases c.stats) [
    | inl e ↦ simp e at h
    | inr e ↦ absurd (cc (simp e at h))
  ]

  get-tmp :
      (tmp key_file : Text) (bytes : Bytes) (files : Files)
      → tmp ≢ key_file
      → get key_file (insert tmp bytes files) ≡ get key_file files
  get-tmp tmp key_file bytes files apart =
      get-insert tmp key_file bytes files ∙ ground (arith, eq_iff tmp key_file)

  pub get-renamed :
      (key_file : Text) (bytes : Bytes) (files : Files)
      → get key_file (insert key_file bytes files) ≡ some bytes
  get-renamed key_file bytes files =
      get-insert key_file key_file bytes files ∙ ground (arith, eq_iff key_file key_file)

  renamed-Whole :
      (c : Calls) (tmp key_file : Text) (key : Key) (files : Files)
      → tmp ≢ key_file
      → (get key_file files ≡ none) ⊎ (c.stats ≡ false)
      → Whole c key_file files key
          (renamed keys paths c tmp key_file key (insert tmp (keys.to_bytes key) files)).1
  renamed-Whole c tmp key_file key files apart gone = elim (Bool-cases c.renames) [
    | inl e ↦ rw e (inr (gone, get-renamed key_file (keys.to_bytes key) _))
    | inr e ↦ rw e (inl (get-tmp tmp key_file (keys.to_bytes key) files apart))
  ]

  written-Whole :
      (c : Calls) (tmp key_file : Text) (key : Key) (files : Files) (r : Result ℕ (Unit {0}))
      → tmp ≢ key_file
      → (get key_file files ≡ none) ⊎ (c.stats ≡ false)
      → Whole c key_file files key (written keys paths c tmp key_file key files r).1
  written-Whole c tmp key_file key files (ok done) apart gone =
      renamed-Whole c tmp key_file key files apart gone
  written-Whole c tmp key_file key files (err part) apart gone =
      inl (get-tmp tmp key_file _ files apart)
  written-Whole c tmp key_file key files panic apart gone = inl refl

  write_key-Whole :
      (c : Calls) (tmp key_file : Text) (key : Key) (files : Files)
      → tmp ≢ key_file
      → (get key_file files ≡ none) ⊎ (c.stats ≡ false)
      → Whole c key_file files key (write_key keys paths c tmp key_file key files).1
  write_key-Whole c tmp key_file key files apart gone = elim (Bool-cases c.creates) [
    | inl e ↦ simp e (written-Whole c tmp key_file key files c.writes apart gone)
    | inr e ↦ simp e (inl refl)
  ]

  load_or_write-Whole :
      (c : Calls) (tmp key_file : Text) (key : Key) (files : Files) (held : Option Bytes)
      → tmp ≢ key_file
      → seen keys paths c (get key_file files) ≡ held
      → Whole c key_file files key (load_or_write keys paths c tmp key_file key held files).1
  load_or_write-Whole c tmp key_file key files none apart gone =
      write_key-Whole c tmp key_file key files apart (seen-none c (get key_file files) gone)
  load_or_write-Whole c tmp key_file key files (some bytes) apart kept = inl refl

  in_dir-Whole :
      (c : Calls) (key_file : Text) (key : Key) (dir : Option Text) (files : Files)
      → ((d : Text) → dir ≡ some d → paths.join d (text ".identity.key.tmp") ≢ key_file)
      → Whole c key_file files key (in_dir keys paths c key_file key dir files).1
  in_dir-Whole c key_file key none files apart = inl refl
  in_dir-Whole c key_file key (some d) files apart = elim (Bool-cases c.makes_dir) [
    | inl e ↦ rw e (
        load_or_write-Whole c _ key_file key files (seen keys paths c (get key_file files))
          (apart d refl) refl)
    | inr e ↦ rw e (inl refl)
  ]

  -- Whatever calls fail, and at whatever byte of a write, a run leaves the key file as it was, or the file now
  -- has all the bytes of the fresh key and was absent, or the call behind `exists` failed: never a part of a
  -- key, given that the temporary file is not the key file.
  pub load_or_generate_at-Whole :
      (c : Calls) (key_file : Text) (key : Key) (files : Files)
      → ((d : Text)
          → paths.parent key_file ≡ some d
          → paths.join d (text ".identity.key.tmp") ≢ key_file)
      → Whole c key_file files key (load_or_generate_at keys paths c key_file key files).1
  unfolding load_or_generate_at
  load_or_generate_at-Whole c key_file key files apart =
      in_dir-Whole c key_file key (paths.parent key_file) files apart
