-- ===== src/Associations/Loops.antt =====
-- The two loops of `SetRoutingTableAssociation` in RoutingProtocol/ocean-protocol.cc.
use maritime_mesh_network.Base.{
  ℕ, zero, suc, ◌+◌, ◌==◌, ◌≡◌, ◌<◌, ◌≤◌, ◌∙◌, sym, ap, refl, true, false, not, Bool, Bool-cases,
  inl, inr, ◌⊎◌, ◌&&◌, ◌||◌, List, [], ◌∷◌, ◌++◌, any, arith, if◌then◌else◌, ==_iff,
}
use maritime_mesh_network.Repositories.{Association}
use maritime_mesh_network.Associations.{
  AssociationState, RouteTable, uses_non_olsr_outgoing_interface, association_at, same_network,
  add_host_network_association, remove_host_network_association, remove_all, add_all,
}
use maritime_mesh_network.Associations.Distinct.{
  announces, without_first, IsDistinct, announces-last, IsDistinct-last, IsDistinct-without_first,
  announces-erase,
}

-- The documented behaviour of `OlsrState`: an insertion puts the association last, and an erasure
-- takes the first equal one out.
pub record IsAssociationState {S : Type 0} (state : AssociationState S) : Type 0 where
  pub inserted :
      (a : Association) (s : S)
      → state.get_associations (state.insert_association a s) ≡ state.get_associations s ++ a ∷ []
  pub erased :
      (a : Association) (s : S)
      → state.get_associations (state.erase_association a s)
        ≡ without_first a (state.get_associations s)

-- A route of the table with an excluded interface, from the `i`th to the `j`th, is to the network.
abbrev pub HasNetwork : List ℕ → RouteTable → ℕ → ℕ → Association → Type 0
HasNetwork exclusions table i j c =
    (k : ℕ) × (i ≤ k)
    × (k < j)
    × (uses_non_olsr_outgoing_interface exclusions table k ≡ true)
    × (same_network (association_at table k) c ≡ true)

erased_of : (p q : Bool) → (p && not q) ≡ true → (p ≡ true) × ((true ≡ true) → q ≡ true → ⊥)
erased_of true false h = (refl, λ _ e. cc)
erased_of true true h = absurd (let bad : false ≡ true = h in cc)
erased_of false q h = absurd (let bad : false ≡ true = h in cc)

module _ {S : Type 0} {state : AssociationState S} (laws : IsAssociationState state) where
  abbrev locals : S → List Association
  locals s = state.get_associations s

  add_lem :
      (a : Association) (s : S)
      → IsDistinct (locals s)
      → IsDistinct (locals (add_host_network_association state a s))
        × (announces (locals (add_host_network_association state a s)) a ≡ true)
        × ((c : Association)
            → announces (locals s) c ≡ true
            → announces (locals (add_host_network_association state a s)) c ≡ true)
  unfolding add_host_network_association
  add_lem a s d = elim (Bool-cases (any (λ l. same_network l a) (locals s))) [
    | inl e ↦ rw e (d, e, λ c h. h)
    | inr e ↦ rw e (
        rw (laws.inserted a s) (
          IsDistinct-last (locals s) a e d,
          announces-last (locals s) a a ∙ ground arith,
          λ c h. announces-last (locals s) a c ∙ rw h,
        ))
  ]

  -- What an addition announces is what was announced, and the association.
  add_announces :
      (a : Association) (s : S) (c : Association)
      → announces (locals (add_host_network_association state a s)) c ≡ true
      → (announces (locals s) c ≡ true) ⊎ (same_network a c ≡ true)
  unfolding add_host_network_association
  add_announces a s c h = elim (Bool-cases (any (λ l. same_network l a) (locals s))) [
    | inl e ↦ inl (rw e at h)
    | inr e ↦
        let h' : announces (locals (state.insert_association a s)) c ≡ true = rw e at h in
        let both : (announces (locals s) c || same_network a c) ≡ true =
          sym (announces-last (locals s) a c)
          ∙ ap (λ l. announces l c) (sym (laws.inserted a s))
          ∙ h' in
        elim (Bool-cases (announces (locals s) c)) [ inl q ↦ inl q | inr q ↦ inr (ground arith) ]
  ]

  module _ (exclusions : List ℕ) (table : RouteTable) where
    abbrev add_one : ℕ → S → S
    add_one i s =
        if uses_non_olsr_outgoing_interface exclusions table i
        then add_host_network_association state (association_at table i) s
        else s

    abbrev remove_one : ℕ → S → S
    remove_one i s =
        if uses_non_olsr_outgoing_interface exclusions table i
        then remove_host_network_association state (association_at table i) s
        else s

    add_one_keeps :
        (i : ℕ) (s : S)
        → IsDistinct (locals s)
        → IsDistinct (locals (add_one i s))
          × ((c : Association)
              → announces (locals s) c ≡ true
              → announces (locals (add_one i s)) c ≡ true)
    add_one_keeps i s d = elim (Bool-cases (uses_non_olsr_outgoing_interface exclusions table i)) [
      | inl u ↦ let (d', _, k) = add_lem (association_at table i) s d in rw u (d', k)
      | inr u ↦ rw u (d, λ c h. h)
    ]

    pub add_all_keeps :
        (k i : ℕ) (s : S)
        → IsDistinct (locals s)
        → IsDistinct (locals (add_all state exclusions table k i s))
          × ((c : Association)
              → announces (locals s) c ≡ true
              → announces (locals (add_all state exclusions table k i s)) c ≡ true)
    unfolding add_all
    add_all_keeps zero i s d = (d, λ c h. h)
    add_all_keeps (suc k) i s d =
        let (d', keep) = add_one_keeps i s d in
        let (e, more) = add_all_keeps k (i + 1) (add_one i s) d' in (e, λ c h. more c (keep c h))

    pub add_all_reaches :
        (k i : ℕ) (s : S) (j : ℕ)
        → IsDistinct (locals s)
        → i ≤ j
        → j < i + k
        → uses_non_olsr_outgoing_interface exclusions table j ≡ true
        → announces (locals (add_all state exclusions table k i s)) (association_at table j) ≡ true
    unfolding add_all
    add_all_reaches zero i s j d lo hi u = absurd (omega arith)
    add_all_reaches (suc k) i s j d lo hi u =
        let (d', keep) = add_one_keeps i s d in
        elim (Bool-cases (i == j)) [
          | inl e ↦
              let same : j ≡ i = sym ((==_iff i j).0 e) in
              let now : announces (locals (add_one i s)) (association_at table i) ≡ true =
                rw (rw same at u) (add_lem (association_at table i) s d).1 in
              rw same ((add_all_keeps k (i + 1) (add_one i s) d').1 (association_at table i) now)
          | inr e ↦
              let after : i + 1 ≤ j = ground arith in
              add_all_reaches k (i + 1) (add_one i s) j d' after (omega arith) u
        ]

    pub add_all_from :
        (k i : ℕ) (s : S) (c : Association)
        → announces (locals (add_all state exclusions table k i s)) c ≡ true
        → (announces (locals s) c ≡ true) ⊎ HasNetwork exclusions table i (i + k) c
    unfolding add_all
    add_all_from zero i s c h = inl h
    add_all_from (suc k) i s c h = elim (add_all_from k (i + 1) (add_one i s) c h) [
      | inr (j, lo, hi, u, q) ↦ inr (j, omega arith, omega arith, u, q)
      | inl g ↦ elim (Bool-cases (uses_non_olsr_outgoing_interface exclusions table i)) [
        | inr n ↦ inl (rw n at g)
        | inl u ↦ elim (add_announces (association_at table i) s c (rw u at g)) [
          | inl old ↦ inl old
          | inr q ↦ inr (i, omega arith, omega arith, u, q)
        ]
      ]
    ]

    remove_one_lem :
        (i : ℕ) (s : S)
        → IsDistinct (locals s)
        → IsDistinct (locals (remove_one i s))
          × ((c : Association)
              → announces (locals (remove_one i s)) c ≡ true
              → (announces (locals s) c ≡ true)
                × (uses_non_olsr_outgoing_interface exclusions table i ≡ true
                    → same_network (association_at table i) c ≡ true
                    → ⊥))
    unfolding remove_host_network_association
    remove_one_lem i s d =
        let a = association_at table i in
        elim (Bool-cases (uses_non_olsr_outgoing_interface exclusions table i)) [
          | inr n ↦ rw n (d, λ c h. (h, λ u. absurd (let bad : false ≡ true = u in cc)))
          | inl u ↦ rw u (
              rw (laws.erased a s) (
                IsDistinct-without_first (locals s) a d,
                λ c h.
                    erased_of (announces (locals s) c) (same_network a c)
                      (sym (announces-erase (locals s) a c d) ∙ h),
              ))
        ]

    -- After the loop over the old table the list is as distinct, and announces what it did before
    -- less the networks of the table.
    pub remove_all_lem :
        (k i : ℕ) (s : S)
        → IsDistinct (locals s)
        → IsDistinct (locals (remove_all state exclusions table k i s))
          × ((c : Association)
              → announces (locals (remove_all state exclusions table k i s)) c ≡ true
              → (announces (locals s) c ≡ true) × (HasNetwork exclusions table i (i + k) c → ⊥))
    unfolding remove_all remove_host_network_association
    remove_all_lem zero i s d =
        (d, λ c h. (h, λ has. let (j, lo, hi, _, _) = has in absurd (omega arith)))
    remove_all_lem (suc k) i s d =
        let (d1, one) = remove_one_lem i s d in
        let (d2, rest) = remove_all_lem k (i + 1) (remove_one i s) d1 in
        (
          d2,
          λ c h.
              let (p, later) = rest c h in
              let (q, here) = one c p in
              (
                q,
                λ has.
                    let (j, lo, hi, u, m) = has in
                    elim (Bool-cases (i == j)) [
                      | inl e ↦
                          let same : j ≡ i = sym ((==_iff i j).0 e) in
                          here (rw same at u)
                            (sym (ap (λ z. same_network (association_at table z) c) same) ∙ m)
                      | inr e ↦ later (j, ground arith, omega arith, u, m)
                    ],
              ),
        )
