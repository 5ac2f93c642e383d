-- ===== src/Protocol/Links/Symmetric.antt =====
-- `LinkTupleUpdated` brings the status of the neighbor up to date with its links.
use maritime_mesh_network.Base.Int.{◌≤ℤ◌}
use maritime_mesh_network.Base.{
  arith, ◌↔◌, Bool-cases, sym, ◌∙◌, true, inl, inr, [], ◌∷◌, ℕ, ◌≡◌, ◌≢◌, refl, sym, subst, Bool,
  true, false, if◌then◌else◌, none, some, List, any, In, get-In, get-modify, get-append_last,
  All-get, length, modify, elim-cases,
}
use maritime_mesh_network.Base.Int.{leb_ℤ}
use maritime_mesh_network.Repositories.{
  Ipv4Address, LinkTuple, NeighborTuple, is_sym, status_sym, status_not_sym,
}
use maritime_mesh_network.Protocol.{
  Protocol, OlsrState, Context, main_address_of, add_neighbor_tuple, increment_ansn,
}
use maritime_mesh_network.Protocol.Laws.{IsOlsrState, neighbor_key}
use maritime_mesh_network.Protocol.Links.{
  link_tuple_added, ensure_neighbor, is_symmetric_to, update_status, link_tuple_updated,
}

-- A neighbor tuple with this main address and status is in the vector.
record HasStatus (addr : Ipv4Address) (symmetric : Bool) (v : List NeighborTuple) : Type 0 where
  pub tuple : NeighborTuple
  pub inside : In tuple v
  pub main : tuple.neighbor_main_addr ≡ addr
  pub status : is_sym tuple.status ≡ symmetric

module _ {H S : Type 0} (st : OlsrState S) (laws : IsOlsrState st) (x : Context H) where
  update_status-HasStatus :
      (addr : Ipv4Address) (i : ℕ) (s : Protocol H S)
      → st.neighbor.find addr s.neighbors ≡ some i
      → HasStatus addr
          (any (is_symmetric_to st x s addr) s.links)
          (update_status st x i s).neighbors
  unfolding update_status
  update_status-HasStatus addr i s e =
      let (t, g, k) = laws.neighbor.find-some addr s.neighbors i e in
      let renew : NeighborTuple → NeighborTuple = λ (nb : NeighborTuple). record nb {
        status =
            if any (is_symmetric_to st x s nb.neighbor_main_addr) s.links
            then status_sym
            else status_not_sym;
      } in
      record {
        tuple = renew t;
        inside =
            get-In (modify i renew s.neighbors) i (renew t) (get-modify i renew s.neighbors t g);
        main = k;
        status =
            subst
              (λ a.
                is_sym
                  (if any (is_symmetric_to st x s a) s.links then status_sym else status_not_sym)
                ≡ any (is_symmetric_to st x s addr) s.links)
              (sym k) (is_sym_if (any (is_symmetric_to st x s addr) s.links));
      }
    where
      is_sym_if : (b : Bool) → is_sym (if b then status_sym else status_not_sym) ≡ b
      is_sym_if true = refl
      is_sym_if false = refl

  -- Once the neighbor is ensured it is found, and the addresses and links are as before.
  record IsEnsured (t : LinkTuple) (s u : Protocol H S) : Type 0 where
    known : st.neighbor.find (main_address_of st s t.neighbor_iface_addr) u.neighbors ≢ none
    same : main_address_of st u t.neighbor_iface_addr ≡ main_address_of st s t.neighbor_iface_addr
    links :
        (a : Ipv4Address)
        → any (is_symmetric_to st x u a) u.links ≡ any (is_symmetric_to st x s a) s.links

  ensured : (t : LinkTuple) (w : ℕ) (s : Protocol H S) → IsEnsured t s (ensure_neighbor st x t w s)
  unfolding ensure_neighbor link_tuple_added add_neighbor_tuple increment_ansn is_symmetric_to
      main_address_of
  ensured t w s =
      elim-cases (λ (u : Protocol H S). IsEnsured t s u) (st.neighbor.find main s.neighbors) _ _
        (λ n. record { known = λ m. added n m; same = refl; links = λ a. refl })
        (λ i e. record { known = λ m. absurd cc; same = refl; links = λ a. refl })
    where
      main : Ipv4Address
      main = main_address_of st s t.neighbor_iface_addr

      nb : NeighborTuple
      nb = record {
        neighbor_main_addr = main;
        status = if leb_ℤ x.now t.sym_time then status_sym else status_not_sym;
        willingness = w;
      }

      added :
          st.neighbor.find main s.neighbors ≡ none
          → st.neighbor.find main (st.neighbor.insert nb s.neighbors) ≢ none
      added n m =
          All-get (λ u. neighbor_key u ≢ main) (st.neighbor.insert nb s.neighbors)
            (length s.neighbors) nb
            (laws.neighbor.find-none main (st.neighbor.insert nb s.neighbors) m)
            (rw (laws.neighbor.insert-new nb s.neighbors n) (get-append_last s.neighbors nb)) refl

  updated-HasStatus :
      (t : LinkTuple) (w : ℕ) (s : Protocol H S)
      → let main = main_address_of st s t.neighbor_iface_addr in
        HasStatus main
          (any (is_symmetric_to st x s main) s.links)
          (link_tuple_updated st x t w s).neighbors
  unfolding link_tuple_updated
  updated-HasStatus t w s =
      let main = main_address_of st s t.neighbor_iface_addr in
      let u = ensure_neighbor st x t w s in
      let h = ensured t w s in
      elim-cases
        (λ (v : Protocol H S).
          HasStatus main (any (is_symmetric_to st x s main) s.links) v.neighbors)
        (st.neighbor.find (main_address_of st u t.neighbor_iface_addr) u.neighbors) _ _
        (λ n. absurd (h.known (subst (λ a. st.neighbor.find a u.neighbors ≡ none) h.same n)))
        (λ i e.
          subst (λ b. HasStatus main b (update_status st x i u).neighbors) (h.links main)
            (update_status-HasStatus main i u
              (subst (λ a. st.neighbor.find a u.neighbors ≡ some i) h.same e)))

  -- A link to the neighbor with this main address is symmetric at the time.
  abbrev pub SymmetricLink : Protocol H S → Ipv4Address → List LinkTuple → Type 0
  SymmetricLink s addr links =
      (l : LinkTuple) × In l links
      × (main_address_of st s l.neighbor_iface_addr ≡ addr)
      × (x.now ≤ℤ l.sym_time)

  to_link :
      (s : Protocol H S) (addr : Ipv4Address) (ls : List LinkTuple)
      → any (is_symmetric_to st x s addr) ls ≡ true
      → SymmetricLink s addr ls
  unfolding is_symmetric_to
  to_link s addr [] e = absurd cc
  to_link s addr (l ∷ ls) e = elim (Bool-cases (is_symmetric_to st x s addr l)) [
    | inl q ↦ (l, inl refl, ground arith, ground arith)
    | inr q ↦ let (m, i, p, r) = to_link s addr ls (ground arith) in (m, inr i, p, r)
  ]

  of_link :
      (s : Protocol H S) (addr : Ipv4Address) (ls : List LinkTuple)
      → SymmetricLink s addr ls
      → any (is_symmetric_to st x s addr) ls ≡ true
  unfolding is_symmetric_to
  of_link s addr [] (m, i, p, r) = absurd i
  of_link s addr (l ∷ ls) (m, inl q, p, r) =
      let here : is_symmetric_to st x s addr l ≡ true =
        subst (λ w. is_symmetric_to st x s addr w ≡ true) q (ground arith) in
      ground (arith, here)
  of_link s addr (l ∷ ls) (m, inr i, p, r) =
      let there = of_link s addr ls (m, i, p, r) in ground (arith, there)

  -- A neighbor tuple with the main address, symmetric if and only if some link to it is.
  pub record IsUpdated (s : Protocol H S) (addr : Ipv4Address) (v : List NeighborTuple)
      : Type 0 where
    pub tuple : NeighborTuple
    pub inside : In tuple v
    pub main : tuple.neighbor_main_addr ≡ addr
    pub status : (is_sym tuple.status ≡ true) ↔ SymmetricLink s addr s.links

  -- After `LinkTupleUpdated` there is a neighbor tuple with the main address of the link's neighbor,
  -- and it is symmetric exactly when some link of the node to an interface with that main address is
  -- symmetric at the time.
  pub link_tuple_updated-IsUpdated :
      (t : LinkTuple) (w : ℕ) (s : Protocol H S)
      → IsUpdated s
          (main_address_of st s t.neighbor_iface_addr)
          (link_tuple_updated st x t w s).neighbors
  link_tuple_updated-IsUpdated t w s =
      let addr = main_address_of st s t.neighbor_iface_addr in
      let h = updated-HasStatus t w s in
      record {
        tuple = h.tuple;
        inside = h.inside;
        main = h.main;
        status = (
          (λ e. to_link s addr s.links (sym h.status ∙ e)),
          (λ l. h.status ∙ of_link s addr s.links l),
        );
      }
