-- ===== src/Generate/Links.antt =====
-- What a HELLO of `SendHello` in RoutingProtocol/ocean-protocol.cc says of the links of the node.
use maritime_mesh_network.Base.{
  ℕ, ◌+◌, ◌*◌, ◌/◌, ◌%◌, ◌==◌, ◌≡◌, ◌<◌, ◌⊎◌, inl, inr, refl, sym, ap, true, false, some, List, [],
  ◌∷◌, ◌&&◌, In, arith, Bool-cases, Option-cases, ◌∙◌, subst,
}
use maritime_mesh_network.Base.Int.{◌≤ℤ◌, ◌<ℤ◌, leb_ℤ}
use maritime_mesh_network.Repositories.{Ipv4Address, LinkTuple, NeighborTuple}
use maritime_mesh_network.Repositories.Clock.{Time}
use maritime_mesh_network.Wire.Body.{LinkMessage}
use maritime_mesh_network.Generate.{
  link_type, neighbor_type_of, HelloInputs, neighbor_type, link_message, link_messages,
}
use maritime_mesh_network.Generate.Types.{HasTuple, neighbor_type_of_tuple, listed_type}

-- Symmetric, or else asymmetric, or else lost, by the times that the link tuple holds.
abbrev pub IsLinkType : Time → LinkTuple → ℕ → Type 0
IsLinkType now l k =
    (k ≡ 2) × (now ≤ℤ l.sym_time)
    ⊎ (k ≡ 1) × (l.sym_time <ℤ now) × (now ≤ℤ l.asym_time)
    ⊎ (k ≡ 3) × (l.sym_time <ℤ now) × (l.asym_time <ℤ now)

-- A multipoint relay, or else a symmetric or a not symmetric neighbor.
abbrev pub IsNeighborType : HelloInputs → Ipv4Address → ℕ → Type 0
IsNeighborType x addr k =
    (k ≡ 2) × (x.find_mpr_address addr ≡ true)
    ⊎ (k ≡ 1) × (x.find_mpr_address addr ≡ false) × HasTuple x.neighbors addr true
    ⊎ (k ≡ 0) × (x.find_mpr_address addr ≡ false) × HasTuple x.neighbors addr false

-- The link message reports the link: its code has the type of the link in the two low bits and the
-- type of the neighbor above, and its addresses are those of the neighbor.
pub record Reports (x : HelloInputs) (l : LinkTuple) (lm : LinkMessage) : Type 0 where
  pub link : IsLinkType x.now l (lm.link_code % 4)
  pub neighbor : IsNeighborType x (x.get_main l.neighbor_iface_addr) (lm.link_code / 4)
  pub addresses :
      lm.neighbor_interface_addresses
      ≡ l.neighbor_iface_addr ∷ x.find_neighbor_interfaces l.neighbor_iface_addr

module _ (x : HelloInputs) where
  neighbor_type_cases :
      (l : LinkTuple) (k : ℕ)
      → neighbor_type x l ≡ some k
      → IsNeighborType x (x.get_main l.neighbor_iface_addr) k
  unfolding neighbor_type
  neighbor_type_cases l k h =
      let main = x.get_main l.neighbor_iface_addr in
      elim (Bool-cases (x.find_mpr_address main)) [
        | inl e ↦ let h' : some 2 ≡ some k = rw e at h in inl (sym (let r : 2 ≡ k = cc in r), e)
        | inr e ↦
            let h' : neighbor_type_of x.neighbors main ≡ some k = rw e at h in
            elim (neighbor_type_of_tuple x.neighbors main k h') [
              | inl (q, t) ↦ inr (inl (q, e, t))
              | inr (q, t) ↦ inr (inr (q, e, t))
            ]
      ]

  link_type_cases : (l : LinkTuple) → IsLinkType x.now l (link_type x.now l)
  unfolding link_type
  link_type_cases l = elim (Bool-cases (leb_ℤ x.now l.sym_time)) [
    | inl e ↦ inl (rw e, ground arith)
    | inr e ↦ elim (Bool-cases (leb_ℤ x.now l.asym_time)) [
      | inl f ↦ inr (inl (rw e (rw f), ground arith, ground arith))
      | inr f ↦ inr (inr (rw e (rw f), ground arith, ground arith))
    ]
  ]

  IsLinkType_range : (l : LinkTuple) (k : ℕ) → IsLinkType x.now l k → k < 4
  IsLinkType_range l k (inl (e, _)) = omega arith
  IsLinkType_range l k (inr (inl (e, _, _))) = omega arith
  IsLinkType_range l k (inr (inr (e, _, _))) = omega arith

  IsNeighborType_range : (addr : Ipv4Address) (k : ℕ) → IsNeighborType x addr k → k < 4
  IsNeighborType_range addr k (inl (e, _)) = omega arith
  IsNeighborType_range addr k (inr (inl (e, _, _))) = omega arith
  IsNeighborType_range addr k (inr (inr (e, _, _))) = omega arith

  link_message-Reports :
      (l : LinkTuple) (k : ℕ) → neighbor_type x l ≡ some k → Reports x l (link_message x l k)
  unfolding link_message
  link_message-Reports l k h =
      let t = link_type x.now l in
      let lt = IsLinkType_range l t (link_type_cases l) in
      let n = neighbor_type_cases l k h in
      let lk = IsNeighborType_range (x.get_main l.neighbor_iface_addr) k n in
      let low : (t % 4 + k * 4 % 16) % 4 ≡ t = omega arith in
      let high : (t % 4 + k * 4 % 16) / 4 ≡ k = omega arith in
      record {
        link = subst (IsLinkType x.now l) (sym low) (link_type_cases l);
        neighbor = subst (IsNeighborType x (x.get_main l.neighbor_iface_addr)) (sym high) n;
        addresses = refl;
      }

  -- A neighbor is known if it is a multipoint relay or has a neighbor tuple.
  abbrev IsKnown : Ipv4Address → Type 0
  IsKnown addr =
      (x.find_mpr_address addr ≡ true)
      ⊎ ((nb : NeighborTuple) × In nb x.neighbors × (nb.neighbor_main_addr ≡ addr))

  known_type :
      (l : LinkTuple)
      → IsKnown (x.get_main l.neighbor_iface_addr)
      → (k : ℕ) × (neighbor_type x l ≡ some k)
  unfolding neighbor_type
  known_type l known =
      let main = x.get_main l.neighbor_iface_addr in
      elim (Bool-cases (x.find_mpr_address main)) [
        | inl e ↦ (2, rw e)
        | inr e ↦ elim known [
          | inl m ↦ absurd (let bad : false ≡ true = sym e ∙ m in cc)
          | inr (nb, i, a) ↦ let (k, q) = listed_type x.neighbors main nb i a in (k, rw e q)
        ]
      ]

  -- A HELLO reports links of this interface's node that have not expired, and every such link
  -- whose neighbor is known.
  pub record IsHello (main : Ipv4Address) (ls : List LinkTuple) (lms : List LinkMessage)
      : Type 0 where
    pub sound :
        (lm : LinkMessage)
        → In lm lms
        → (l : LinkTuple) × In l ls
          × (x.get_main l.local_iface_addr ≡ main)
          × (x.now ≤ℤ l.time)
          × Reports x l lm
    pub complete :
        (l : LinkTuple)
        → In l ls
        → x.get_main l.local_iface_addr ≡ main
        → x.now ≤ℤ l.time
        → IsKnown (x.get_main l.neighbor_iface_addr)
        → (lm : LinkMessage) × In lm lms × Reports x l lm

  skip_link :
      (main : Ipv4Address) (l : LinkTuple) (ls : List LinkTuple) (lms : List LinkMessage)
      → ((x.get_main l.local_iface_addr ≡ main)
          → x.now ≤ℤ l.time
          → IsKnown (x.get_main l.neighbor_iface_addr)
          → ⊥)
      → IsHello main ls lms
      → IsHello main (l ∷ ls) lms
  skip_link main l ls lms no_report h = record {
    sound = λ lm i. let (m, j, a, t, r) = h.sound lm i in (m, inr j, a, t, r);
    complete = λ m i a t n. elim i [
      | inl e ↦ absurd (
          no_report (ap (λ z. x.get_main z.local_iface_addr) (sym e) ∙ a)
            (subst (λ z. x.now ≤ℤ z.time) e t)
            (subst (λ z. IsKnown (x.get_main z.neighbor_iface_addr)) e n))
      | inr j ↦ h.complete m j a t n
    ];
  }

  report_link :
      (main : Ipv4Address) (l : LinkTuple) (ls : List LinkTuple) (lms : List LinkMessage)
      (lm : LinkMessage)
      → x.get_main l.local_iface_addr ≡ main
      → x.now ≤ℤ l.time
      → Reports x l lm
      → IsHello main ls lms
      → IsHello main (l ∷ ls) (lm ∷ lms)
  report_link main l ls lms lm a t r h = record {
    sound = λ m i. elim i [
      | inl e ↦ (l, inl refl, a, t, subst (Reports x l) (sym e) r)
      | inr j ↦ let (k, i', a', t', r') = h.sound m j in (k, inr i', a', t', r')
    ];
    complete = λ m i a' t' n. elim i [
      | inl e ↦ (lm, inl refl, subst (λ z. Reports x z lm) (sym e) r)
      | inr j ↦ let (k, i', r') = h.complete m j a' t' n in (k, inr i', r')
    ];
  }

  -- Every link message of a HELLO reports a link of this node that has not expired, and every such
  -- link whose neighbor is a multipoint relay or has a neighbor tuple is reported. A report has in
  -- its code the type of the link by the times of the link tuple (two low bits) and the type of
  -- the neighbor by the multipoint relays and the neighbor tuples (above them), and the addresses
  -- of the neighbor.
  pub link_messages-IsHello :
      (main : Ipv4Address) (ls : List LinkTuple) → IsHello main ls (link_messages x main ls)
  unfolding link_messages
  link_messages-IsHello main [] = record {
    sound = λ lm i. absurd i;
    complete = λ l i a t n. absurd i;
  }
  link_messages-IsHello main (l ∷ ls) =
      let h = link_messages-IsHello main ls in
      let rest = link_messages x main ls in
      elim (Bool-cases (x.get_main l.local_iface_addr == main && leb_ℤ x.now l.time)) [
        | inr e ↦ rw e (skip_link main l ls rest (λ a t n. ground arith) h)
        | inl e ↦ elim (Option-cases (neighbor_type x l)) [
          | inl unknown ↦
              rw (e, unknown)
                (skip_link main l ls rest
                  (λ a t n. let (k, q) = known_type l n in cc (sym unknown ∙ q)) h)
          | inr (k, known) ↦
              rw (e, known)
                (report_link main l ls rest (link_message x l k) (ground arith) (ground arith)
                  (link_message-Reports l k known) h)
        ]
      ]
