-- ===== src/Common/Map.antt =====
-- Finite maps as association lists: `HashMap`, `DashMap`, `BTreeMap`. The order of the list stands
-- for the order in which the Rust map happens to be iterated; laws about all lists cover all orders.
use mathlib.Core.Path.{◌∙◌, ◌≡◌, refl}
use mathlib.Core.Bool.{Bool, false}
use mathlib.Core.Option.{Option, none, some}
use mathlib.Core.List.{List, [], ◌∷◌}
use native.Mathlib.Omega.{arith}
use meshly_core.Common.Lists.{any}
use mathlib.Core.Logic.{inl, inr}
use meshly_core.Common.Tests.{Bool-cases, Eq, ◌==◌, eq_iff, if◌then◌else◌}

abbrev pub Map {ℓ κ} : Type ℓ → Type κ → Type (ℓ ⊔ κ)
Map K V = List (K × V)

module _ {ℓ κ} {K : Type ℓ} {V : Type κ} ⦃e : Eq K⦄ where
  unfoldable pub get : K → Map K V → Option V
  get k [] = none
  get k ((j, v) ∷ m) = let rest = get k m in if j == k then some v else rest

  unfoldable pub insert : K → V → Map K V → Map K V
  insert k v [] = (k, v) ∷ []
  insert k v ((j, w) ∷ m) = let rest = insert k v m in if j == k then (k, v) ∷ m else (j, w) ∷ rest

  unfoldable pub remove : K → Map K V → Map K V
  remove k [] = []
  remove k ((j, v) ∷ m) = let rest = remove k m in if j == k then rest else (j, v) ∷ rest

  -- The keys whose values satisfy a test, and a map without some keys.
  unfoldable pub keys_where : (V → Bool) → Map K V → List K
  keys_where p [] = []
  keys_where p ((j, v) ∷ m) = let rest = keys_where p m in if p v then j ∷ rest else rest

  unfoldable pub remove_all : List K → Map K V → Map K V
  remove_all [] m = m
  remove_all (k ∷ ks) m = remove_all ks (remove k m)

  -- No key stands twice.
  abbrev pub IsMap : Map K V → Type κ
  IsMap [] = Unit
  IsMap ((k, v) ∷ m) = (get k m ≡ none) × IsMap m

  pub get-insert :
      (k j : K) (v : V) (m : Map K V) → get j (insert k v m) ≡ (if k == j then some v else get j m)
  unfolding get insert
  get-insert k j v [] = refl
  get-insert k j v ((i, w) ∷ m) =
      ground (arith, eq_iff i k, eq_iff i j, eq_iff k j, get-insert k j v m)

  pub get-remove : (k j : K) (m : Map K V) → get j (remove k m) ≡ (if k == j then none else get j m)
  unfolding get remove
  get-remove k j [] = ground arith
  get-remove k j ((i, w) ∷ m) = ground (arith, eq_iff i k, eq_iff i j, eq_iff k j, get-remove k j m)

module _ {K : Type 0} ⦃e : Eq K⦄ where
  abbrev pub member : K → List K → Bool
  member k ks = any (λ j. j == k) ks

-- What is left of an entry when the values that satisfy `p` go.
abbrev pub unless {ℓ} : {A : Type ℓ} → (A → Bool) → Option A → Option A
unless p none = none
unless p (some v) = if p v then none else some v

-- Whether there is a value and it satisfies `p`.
abbrev pub holds_at {ℓ} : {A : Type ℓ} → (A → Bool) → Option A → Bool
holds_at p none = false
holds_at p (some v) = p v

module _ {K V : Type 0} ⦃e : Eq K⦄ where
  pub insert-IsMap : (k : K) (v : V) (m : Map K V) → IsMap m → IsMap (insert k v m)
  unfolding get insert
  insert-IsMap k v [] h = (refl, tt)
  insert-IsMap k v ((i, w) ∷ m) h = elim (Bool-cases (i == k)) [
    | inl same ↦ rw (same, ← (eq_iff i k).0 same) h
    | inr other ↦
        rw other
          (rw (get-insert k i v m) (ground (arith, eq_iff i k, eq_iff k i)), insert-IsMap k v m h.1)
  ]

  pub remove-IsMap : (k : K) (m : Map K V) → IsMap m → IsMap (remove k m)
  unfolding get remove
  remove-IsMap k [] h = h
  remove-IsMap k ((i, w) ∷ m) h = elim (Bool-cases (i == k)) [
    | inl same ↦ rw same (remove-IsMap k m h.1)
    | inr other ↦ rw other (rw (get-remove k i m) (ground (arith, h.0)), remove-IsMap k m h.1)
  ]

  pub remove_all-IsMap : (ks : List K) (m : Map K V) → IsMap m → IsMap (remove_all ks m)
  unfolding remove_all
  remove_all-IsMap [] m h = h
  remove_all-IsMap (k ∷ ks) m h = remove_all-IsMap ks (remove k m) (remove-IsMap k m h)

  get-remove_all :
      (ks : List K) (j : K) (m : Map K V)
      → get j (remove_all ks m) ≡ (if member j ks then none else get j m)
  unfolding remove_all
  get-remove_all [] j m = refl
  get-remove_all (k ∷ ks) j m = ground (arith, get-remove_all ks j (remove k m), get-remove k j m)

  absent-keys_where :
      (p : V → Bool) (j : K) (m : Map K V) → get j m ≡ none → member j (keys_where p m) ≡ false
  unfolding keys_where get
  absent-keys_where p j [] h = refl
  absent-keys_where p j ((i, w) ∷ m) h = ground (arith, absent-keys_where p j m)

  pub member-keys_where_iff :
      (p : V → Bool) (j : K) (m : Map K V)
      → IsMap m
      → member j (keys_where p m) ≡ holds_at p (get j m)
  unfolding keys_where get
  member-keys_where_iff p j [] h = refl
  member-keys_where_iff p j ((i, w) ∷ m) h =
      ground (arith, member-keys_where_iff p j m, absent-keys_where p j m, eq_iff i j)

  member-keys_where :
      (p : V → Bool) (j : K) (m : Map K V)
      → IsMap m
      → (if member j (keys_where p m) then none else get j m) ≡ unless p (get j m)
  unfolding keys_where get
  member-keys_where p j [] h = refl
  member-keys_where p j ((i, w) ∷ m) h =
      ground (arith, member-keys_where p j m, absent-keys_where p j m, eq_iff i j)

  -- Removing the keys whose values satisfy `p` removes those entries and no other.
  pub get-remove_where :
      (p : V → Bool) (j : K) (m : Map K V)
      → IsMap m
      → get j (remove_all (keys_where p m) m) ≡ unless p (get j m)
  get-remove_where p j m h = get-remove_all (keys_where p m) j m ∙ member-keys_where p j m h

pub ruleset map_laws = (get-insert, get-remove)
