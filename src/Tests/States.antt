-- ===== src/Tests/States.antt =====
-- A concrete `OlsrState` with its documented behaviour: vectors that are searched from the front.
use maritime_mesh_network.Base.{
  ℕ, suc, ◌==◌, ◌&&◌, ltb, ◌≡◌, ◌≢◌, ◌≤◌, refl, ◌↔◌, Bool, true, false, if◌then◌else◌, Option, none,
  some, List, [], ◌∷◌, ◌++◌, arith, get_elem?, remove_at, remove_if, All, All-get, Bool-cases,
  Option-cases, inl, inr,
}
use maritime_mesh_network.Base.Int.{leb_ℤ}
use maritime_mesh_network.Repositories.{
  Ipv4Address, LinkTuple, NeighborTuple, TopologyTuple, is_sym,
}
use maritime_mesh_network.Repositories.Clock.{Time}
use maritime_mesh_network.Repositories.Interface.{Repository, IsRepository}
use maritime_mesh_network.Protocol.{OlsrState}
use maritime_mesh_network.Protocol.Laws.{
  IsOlsrState, link_key, neighbor_key, two_hop_key, selector_key, duplicate_key, topology_key,
  iface_assoc_key, association_key, is_older,
}
use maritime_mesh_network.Routing.Hna.Contents.{HnaRoute}
use maritime_mesh_network.Tests.Networks.{listed}

-- The index of the first element that passes a test.
abbrev pub index_if : {T : Type 0} → (T → Bool) → List T → Option ℕ
index_if p [] = none
index_if p (t ∷ v) =
    let rest = index_if p v in
    if p t then some 0 else elim rest [ none ↦ none | some i ↦ some (suc i) ]

abbrev pub linear : {K T : Type 0} → (K → K → Bool) → (T → K) → Repository K T
linear same key = record {
  find = λ k. index_if (λ t. same (key t) k);
  insert = λ t v. v ++ t ∷ [];
  erase =
      λ t v. elim (index_if (λ u. same (key u) (key t)) v) [ none ↦ v | some i ↦ remove_at i v ];
}

module _ {T : Type 0} (p : T → Bool) where
  pub index_if-some :
      (v : List T) (i : ℕ)
      → index_if p v ≡ some i
      → (t : T) × (get_elem? v i ≡ some t) × (p t ≡ true)
  index_if-some [] i e = absurd cc
  index_if-some (t ∷ v) i e = elim (Bool-cases (p t)) [
    | inl q ↦ let z : i ≡ 0 = ground arith in (t, rw z refl, q)
    | inr q ↦ elim (Option-cases (index_if p v)) [
      | inl n ↦ absurd (ground arith)
      | inr (j, f) ↦
          let z : i ≡ suc j = ground arith in let (u, g, r) = index_if-some v j f in (u, rw z g, r)
    ]
  ]

  pub index_if-none : (v : List T) → index_if p v ≡ none → All (λ t. p t ≡ false) v
  index_if-none [] e = tt
  index_if-none (t ∷ v) e = elim (Bool-cases (p t)) [
    | inl q ↦ absurd (ground arith)
    | inr q ↦ elim (Option-cases (index_if p v)) [
      | inl n ↦ (q, index_if-none v n)
      | inr (j, f) ↦ absurd (ground arith)
    ]
  ]

module _ {K T : Type 0} (same : K → K → Bool) (key : T → K)
    (same_iff : (a b : K) → (same a b ≡ true) ↔ (a ≡ b)) where
  pub linear-IsRepository : IsRepository key (linear same key)
  linear-IsRepository = record {
    find-some = λ k v i e.
        let (t, g, q) = index_if-some (λ t. same (key t) k) v i e in
        (t, g, (same_iff (key t) k).0 q);
    find-none = λ k v e. none_has k v (index_if-none (λ t. same (key t) k) v e);
    insert-new = λ t v e. refl;
    erase-at = λ t v i e. erases t v i e;
  }
    where
      none_has : (k : K) (v : List T) → All (λ t. same (key t) k ≡ false) v → All (λ t. key t ≢ k) v
      none_has k [] h = tt
      none_has k (t ∷ v) h = (
        (λ e. let q : same (key t) k ≡ true = (same_iff (key t) k).1 e in absurd cc),
        none_has k v h.1,
      )

      erases :
          (t : T) (v : List T) (i : ℕ)
          → get_elem? v i ≡ some t
          → (j : ℕ) × (u : T) × (get_elem? v j ≡ some u)
            × (key u ≡ key t)
            × ((linear same key).erase t v ≡ remove_at j v)
      erases t v i e = elim (Option-cases (index_if (λ u. same (key u) (key t)) v)) [
        | inl n ↦ absurd (
            All-get (λ u. key u ≢ key t) v i t
              (none_has (key t) v (index_if-none (λ u. same (key u) (key t)) v n)) e refl)
        | inr (j, f) ↦
            let (u, g, q) = index_if-some (λ u. same (key u) (key t)) v j f in
            (j, u, g, (same_iff (key u) (key t)).0 q, rw (f, linear) refl)
      ]

abbrev pub same_pair : ℕ × ℕ → ℕ × ℕ → Bool
same_pair a b = a.0 == b.0 && a.1 == b.1

abbrev pub same_triple : ℕ × ℕ × ℕ → ℕ × ℕ × ℕ → Bool
same_triple a b = a.0 == b.0 && (a.1 == b.1 && a.2 == b.2)

same_iff : (a b : ℕ) → ((a == b) ≡ true) ↔ (a ≡ b)
same_iff a b = ground arith

same_pair_iff : (a b : ℕ × ℕ) → (same_pair a b ≡ true) ↔ (a ≡ b)
same_pair_iff a b = ground arith

same_triple_iff : (a b : ℕ × ℕ × ℕ) → (same_triple a b ≡ true) ↔ (a ≡ b)
same_triple_iff a b = ground arith

abbrev is_newer : Ipv4Address → ℕ → TopologyTuple → Bool
is_newer last ansn t = t.last_addr == last && ltb ansn t.sequence_number

abbrev is_symmetric : Ipv4Address → Time → LinkTuple → Bool
is_symmetric a now t = t.neighbor_iface_addr == a && leb_ℤ now t.sym_time

abbrev symmetric_neighbor : Ipv4Address → List NeighborTuple → Option NeighborTuple
symmetric_neighbor a [] = none
symmetric_neighbor a (t ∷ v) =
    let rest = symmetric_neighbor a v in
    if t.neighbor_main_addr == a && is_sym t.status then some t else rest

abbrev pub vectors : OlsrState (List HnaRoute)
vectors = record {
  link = linear (λ a b. a == b) link_key;
  neighbor = linear (λ a b. a == b) neighbor_key;
  two_hop = linear same_pair two_hop_key;
  mpr_selector = linear (λ a b. a == b) selector_key;
  duplicate = linear same_pair duplicate_key;
  topology = linear same_pair topology_key;
  iface_assoc = linear (λ a b. a == b) iface_assoc_key;
  association = linear same_triple association_key;
  find_sym_link_tuple = λ a now. index_if (is_symmetric a now);
  find_sym_neighbor_tuple = symmetric_neighbor;
  find_newer_topology_tuple = λ a ansn. index_if (is_newer a ansn);
  erase_older_topology_tuples = λ a ansn. remove_if (is_older a ansn);
  erase_neighbor_tuple = λ a. remove_if (λ t. t.neighbor_main_addr == a);
  erase_two_hop_neighbor_tuples = λ a. remove_if (λ t. t.neighbor_main_addr == a);
  erase_two_hop_neighbor_tuples_to =
      λ a b. remove_if (λ t. t.neighbor_main_addr == a && t.two_hop_neighbor_addr == b);
  erase_mpr_selector_tuples = λ a. remove_if (λ t. t.main_addr == a);
  static_routing = listed;
}

pub vectors-IsOlsrState : IsOlsrState vectors
vectors-IsOlsrState = record {
  link = linear-IsRepository (λ a b. a == b) link_key same_iff;
  neighbor = linear-IsRepository (λ a b. a == b) neighbor_key same_iff;
  two_hop = linear-IsRepository same_pair two_hop_key same_pair_iff;
  mpr_selector = linear-IsRepository (λ a b. a == b) selector_key same_iff;
  duplicate = linear-IsRepository same_pair duplicate_key same_pair_iff;
  topology = linear-IsRepository same_pair topology_key same_pair_iff;
  iface_assoc = linear-IsRepository (λ a b. a == b) iface_assoc_key same_iff;
  association = linear-IsRepository same_triple association_key same_triple_iff;
  sym_link = λ a now v i e.
      let (t, g, q) = index_if-some (is_symmetric a now) v i e in
      (t, g, ground arith, ground arith);
  no_newer = λ a ansn v e. all_old a ansn v (index_if-none (is_newer a ansn) v e);
  older = λ a ansn v. refl;
  selectors = λ a v. refl;
  two_hops_to = λ a b v. refl;
}
  where
    all_old :
        (a : Ipv4Address) (ansn : ℕ) (v : List TopologyTuple)
        → All (λ t. is_newer a ansn t ≡ false) v
        → All (λ t. t.last_addr ≡ a → t.sequence_number ≤ ansn) v
    all_old a ansn [] h = tt
    all_old a ansn (t ∷ v) h = ((λ e. ground arith), all_old a ansn v h.1)
