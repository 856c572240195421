-- ===== src/System/Groups.antt =====
-- What holds of the groups of the server's state, and which changes keep it.
use mathlib.Core.Option
use meshly_core.Common.{
  ◌≤◌, ◌≡◌, refl, sym, ap, ◌∙◌, inl, inr, Bool, true, ◌&&◌, Option, none, some, List, Bool-cases,
  Option-cases, Eq, ◌==◌, eq_iff, nat_eq, list_eq, length, any, Text,
}
use meshly_core.Common.Map.{get, insert-IsMap, IsMap}
use meshly_core.Registry.{Group, ServiceRecord, ServerState, with_group}
use meshly_core.Registry.Laws.{get-with_group}

module _ {Peer : Type 0} ⦃e : Eq Peer⦄ where
  -- Whether a peer has sent a token.
  abbrev pub heard : Peer → Text → List (Peer × Text) → Bool
  heard p token hellos = any (λ (x : Peer × Text). x.0 == p && x.1 == token) hellos

  -- A group under its name, with names of services of at most 32 bytes and providers that have sent the
  -- group's token.
  pub record IsGroup (hellos : List (Peer × Text)) (name : Text) (g : Group Peer) : Type 0 where
    pub named : g.name ≡ name
    pub services_once : IsMap g.services
    pub sessions_once : IsMap g.sessions
    pub short : (s : Text) (r : ServiceRecord Peer) → get s g.services ≡ some r → length s ≤ 32
    pub known :
        (s : Text) (r : ServiceRecord Peer)
        → get s g.services ≡ some r
        → heard r.provider_id g.token hellos ≡ true

  pub record IsState (hellos : List (Peer × Text)) (st : ServerState Peer) : Type 0 where
    pub groups_once : IsMap st.groups
    pub each_group :
        (name : Text) (g : Group Peer) → get name st.groups ≡ some g → IsGroup hellos name g

  -- The groups of one state are there in the other, with the same tokens.
  abbrev pub SameTokens : ServerState Peer → ServerState Peer → Type 0
  SameTokens st st' =
      (name : Text) (g : Group Peer)
      → get name st.groups ≡ some g
      → (g' : Group Peer) × (get name st'.groups ≡ some g') × (g'.token ≡ g.token)

  pub SameTokens-refl : (st : ServerState Peer) → SameTokens st st
  SameTokens-refl st name g there = (g, there, refl)

  pub SameTokens-trans :
      (a b c : ServerState Peer) → SameTokens a b → SameTokens b c → SameTokens a c
  SameTokens-trans a b c p q name g there =
      let (g1, there1, same1) = p name g there in
      let (g2, there2, same2) = q name g1 there1 in (g2, there2, same2 ∙ same1)

  -- A state that is as good as before, with the same groups.
  pub record Keeps (hellos : List (Peer × Text)) (st st' : ServerState Peer) : Type 0 where
    pub good : IsState hellos st'
    pub same : SameTokens st st'

  pub Keeps-refl :
      (hellos : List (Peer × Text)) (st : ServerState Peer) → IsState hellos st → Keeps hellos st st
  Keeps-refl hellos st good = record { good = good; same = SameTokens-refl st }

  pub Keeps-groups :
      (hellos : List (Peer × Text)) (st st' : ServerState Peer)
      → st'.groups ≡ st.groups
      → IsState hellos st
      → Keeps hellos st st'
  Keeps-groups hellos st st' same good = record {
    good = record {
      groups_once = rw same good.groups_once;
      each_group = λ name g there. good.each_group name g (ap (get name) (sym same) ∙ there);
    };
    same = λ name g there. (g, ap (get name) same ∙ there, refl);
  }

  with_group-IsMap :
      (name : Text) (f : Group Peer → Group Peer) (st : ServerState Peer)
      → IsMap st.groups
      → IsMap (with_group name f st).groups
  unfolding with_group
  with_group-IsMap name f st h = elim (Option-cases (get name st.groups)) [
    | inl gone ↦ rw (gone, with_group) h
    | inr (g, there) ↦ rw (there, with_group) (insert-IsMap name (f g) st.groups h)
  ]

  -- What a change of one group must do.
  abbrev pub Fits : List (Peer × Text) → Text → (Group Peer → Group Peer) → Group Peer → Type 0
  Fits hellos name f g = IsGroup hellos name (f g) × ((f g).token ≡ g.token)

  changed_group :
      (hellos : List (Peer × Text)) (name j : Text) (f : Group Peer → Group Peer)
      (o : Option (Group Peer)) (g' : Group Peer)
      → ((g : Group Peer) → o ≡ some g → Fits hellos name f g)
      → name ≡ j
      → Option.map f o ≡ some g'
      → IsGroup hellos j g'
  changed_group hellos name j f none g' fits same h = absurd (cc h)
  changed_group hellos name j f (some g) g' fits same h =
      let here : f g ≡ g' = cc h in rw (← here, ← same) ((fits g refl).0)

  changed_token :
      (hellos : List (Peer × Text)) (name : Text) (f : Group Peer → Group Peer)
      (o : Option (Group Peer)) (g : Group Peer)
      → ((g : Group Peer) → o ≡ some g → Fits hellos name f g)
      → o ≡ some g
      → (g' : Group Peer) × (Option.map f o ≡ some g') × (g'.token ≡ g.token)
  changed_token hellos name f o g fits there = (f g, rw there refl, (fits g there).1)

  pub with_group-Keeps :
      (hellos : List (Peer × Text)) (name : Text) (f : Group Peer → Group Peer)
      (st : ServerState Peer)
      → IsState hellos st
      → ((g : Group Peer) → get name st.groups ≡ some g → Fits hellos name f g)
      → Keeps hellos st (with_group name f st)
  with_group-Keeps hellos name f st good fits = record {
    good = record {
      groups_once = with_group-IsMap name f st good.groups_once;
      each_group = λ j g there. elim (Bool-cases (name == j)) [
        | inl same ↦
            let same_name = (eq_iff name j).0 same in
            changed_group hellos name j f (get name st.groups) g fits same_name (
              ap (λ k. Option.map f (get k st.groups)) same_name
              ∙ sym (rw same at (get-with_group name j f st))
              ∙ there)
        | inr other ↦ good.each_group j g (sym (rw other at (get-with_group name j f st)) ∙ there)
      ];
    };
    same = λ j g there. elim (Bool-cases (name == j)) [
      | inl same ↦
          let same_name = (eq_iff name j).0 same in
          let (g', here, token) =
            changed_token hellos name f (get name st.groups) g fits
              (ap (λ k. get k st.groups) same_name ∙ there) in
          (
            g',
            rw same at (get-with_group name j f st)
                ∙ ap (λ k. Option.map f (get k st.groups)) (sym same_name)
                ∙ here,
            token,
          )
      | inr other ↦ (g, rw other at (get-with_group name j f st) ∙ there, refl)
    ];
  }
