-- ===== src/Client/Admits.antt =====
-- Whom a token admits to which group, while the groups change under their names.
use mathlib.Core.Option
use meshly_core.Common.{
  ◌≡◌, refl, inl, inr, Option, none, some, [], ◌∷◌, arith, if◌then◌else◌, Bool-cases, Eq, ◌==◌,
  nat_eq, list_eq, find, Text,
}
use meshly_core.Common.Map.{Map, get, insert}
use meshly_core.Registry.{Group, ServerState, all_groups, authenticate, group, with_group}

module _ {Peer : Type 0} ⦃e : Eq Peer⦄ where
  abbrev first_name : Text → Map Text (Group Peer) → Option Text
  first_name token [] = none
  first_name token ((i, x) ∷ m) = if x.token == token then some x.name else first_name token m

  -- The name of the group that a token admits to.
  abbrev pub admits : ServerState Peer → Text → Option Text
  admits st token = first_name token st.groups

  pub admits_found :
      (st : ServerState Peer) (token : Text)
      → admits st token ≡ Option.map (λ (g : Group Peer). g.name) (authenticate st token)
  unfolding authenticate
  admits_found st token = first st.groups
    where
      first :
          (m : Map Text (Group Peer))
          → first_name token m
            ≡ Option.map
                (λ (g : Group Peer). g.name)
                (find (λ (x : Group Peer). x.token == token) (all_groups m))
      first [] = refl
      first ((i, x) ∷ m) = ground (arith, first m)

  first_name-insert :
      (token name : Text) (g g' : Group Peer) (m : Map Text (Group Peer))
      → get name m ≡ some g
      → g'.name ≡ g.name
      → g'.token ≡ g.token
      → first_name token (insert name g' m) ≡ first_name token m
  unfolding get insert
  first_name-insert token name g g' [] there same same' = absurd (cc there)
  first_name-insert token name g g' ((i, x) ∷ m) there same same' = elim (Bool-cases (i == name)) [
    | inl here ↦ rw here (replaced (the_group (rw here at there)))
    | inr other ↦
        rw (other, first_name-insert token name g g' m (rw other at there) same same') refl
  ]
    where
      the_group : some x ≡ some g → x ≡ g
      the_group h = cc h

      replaced :
          x ≡ g
          → (if g'.token == token then some g'.name else first_name token m)
            ≡ (if x.token == token then some x.name else first_name token m)
      replaced h = rw (h, same, same') refl

  -- A change of a group that keeps its name and its token makes no difference to what tokens admit to.
  pub admits-with_group :
      (token name : Text) (f : Group Peer → Group Peer) (st : ServerState Peer) (g : Group Peer)
      → group st name ≡ some g
      → (f g).name ≡ g.name
      → (f g).token ≡ g.token
      → admits (with_group name f st) token ≡ admits st token
  unfolding with_group group
  admits-with_group token name f st g there same same' =
      rw (there, with_group) (first_name-insert token name g (f g) st.groups there same same')
