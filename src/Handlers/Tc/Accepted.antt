-- ===== src/Handlers/Tc/Accepted.antt =====
-- What a TC message that is accepted leaves in the topology set.
use maritime_mesh_network.Base.{
  ℕ, ◌≡◌, ◌≢◌, ◌≤◌, refl, sym, ap, ◌∙◌, subst, inl, inr, false, Bool-cases, some, List, [], ◌∷◌,
  ◌++◌, arith, All, All-append, All-modify, All-get, In, In-modify, get-In, get-modify,
  In-append_left, In-append_right, modify, remove_if, elim-cases,
}
use maritime_mesh_network.Repositories.{Ipv4Address, TopologyTuple}
use maritime_mesh_network.Repositories.Clock.{Time}
use maritime_mesh_network.Protocol.{Protocol, OlsrState, Context, schedule, add_topology_tuple}
use maritime_mesh_network.Protocol.Laws.{IsOlsrState, is_older}
use maritime_mesh_network.Handlers.Tc.{advertise, advertise_all}

-- A tuple says that `addr` was reached from the originator, under this ANSN and until `expiry`.
pub record Has (originator : Ipv4Address) (ansn : ℕ) (expiry : Time) (addr : Ipv4Address)
    (v : List TopologyTuple) : Type 0 where
  pub tuple : TopologyTuple
  pub inside : In tuple v
  pub dest : tuple.dest_addr ≡ addr
  pub last : tuple.last_addr ≡ originator
  pub number : tuple.sequence_number ≡ ansn
  pub until : tuple.expiration_time ≡ expiry

-- Every tuple of the originator is of this ANSN.
abbrev pub IsCurrent : Ipv4Address → ℕ → List TopologyTuple → Type 0
IsCurrent originator ansn v = All (λ t. t.last_addr ≡ originator → t.sequence_number ≡ ansn) v

-- Every tuple of another originator is kept.
abbrev pub KeepsOthers : Ipv4Address → List TopologyTuple → List TopologyTuple → Type 0
KeepsOthers originator v w = (t : TopologyTuple) → In t v → t.last_addr ≢ originator → In t w

-- After the older tuples are erased, and given that none is newer, the others are current.
pub older_erased :
    (a : Ipv4Address) (ansn : ℕ) (v : List TopologyTuple)
    → All (λ t. t.last_addr ≡ a → t.sequence_number ≤ ansn) v
    → IsCurrent a ansn (remove_if (is_older a ansn) v)
older_erased a ansn [] h = tt
older_erased a ansn (t ∷ v) h = elim (Bool-cases (is_older a ansn t)) [
  | inl e ↦ rw e (older_erased a ansn v h.1)
  | inr e ↦ rw e ((λ q. ground arith), older_erased a ansn v h.1)
]

pub older_others :
    (a : Ipv4Address) (ansn : ℕ) (v : List TopologyTuple)
    → KeepsOthers a v (remove_if (is_older a ansn) v)
older_others a ansn [] t i ne = i
older_others a ansn (u ∷ v) t (inl e) ne =
    let other : is_older a ansn u ≡ false =
      subst (λ w. is_older a ansn w ≡ false) e (ground arith) in
    rw other (inl e)
older_others a ansn (u ∷ v) t (inr i) ne = elim (Bool-cases (is_older a ansn u)) [
  | inl e ↦ rw e (older_others a ansn v t i ne)
  | inr e ↦ rw e (inr (older_others a ansn v t i ne))
]

module _ {H S : Type 0} (st : OlsrState S) (laws : IsOlsrState st) (x : Context H)
    (originator : Ipv4Address) (ansn : ℕ) (expiry : Time) where
  -- One address has been processed, in the vector `v`, with the result `w`.
  record Advertised (addr : Ipv4Address) (v w : List TopologyTuple) : Type 0 where
    current : IsCurrent originator ansn w
    others : KeepsOthers originator v w
    here : Has originator ansn expiry addr w
    there : (b : Ipv4Address) → Has originator ansn expiry b v → Has originator ansn expiry b w

  renewed :
      (addr : Ipv4Address) (i : ℕ) (v : List TopologyTuple)
      → st.topology.find (addr, originator) v ≡ some i
      → IsCurrent originator ansn v
      → Advertised addr v
          (modify i (λ (t : TopologyTuple). record t { expiration_time = expiry }) v)
  renewed addr i v e c =
      let (t, g, k) = laws.topology.find-some (addr, originator) v i e in
      let dest : t.dest_addr ≡ addr = ap (λ (p : Ipv4Address × Ipv4Address). p.0) k in
      let last : t.last_addr ≡ originator = ap (λ (p : Ipv4Address × Ipv4Address). p.1) k in
      let renew : TopologyTuple → TopologyTuple =
        λ (u : TopologyTuple). record u { expiration_time = expiry } in
      let here : Has originator ansn expiry addr (modify i renew v) = record {
        tuple = renew t;
        inside = get-In (modify i renew v) i (renew t) (get-modify i renew v t g);
        dest = dest;
        last = last;
        number = All-get (λ u. u.last_addr ≡ originator → u.sequence_number ≡ ansn) v i t c g last;
        until = refl;
      } in
      record {
        current =
            All-modify (λ u. u.last_addr ≡ originator → u.sequence_number ≡ ansn) i renew v
              (λ a q p. p) c;
        others = λ u j ne. elim (In-modify i renew v u t g j) [
          | inl q ↦ absurd (ne (ap (λ (w : TopologyTuple). w.last_addr) q ∙ last))
          | inr k ↦ k
        ];
        here = here;
        there = λ b h. elim (In-modify i renew v h.tuple t g h.inside) [
          | inl q ↦
              subst (λ a. Has originator ansn expiry a (modify i renew v))
                (sym dest ∙ sym (ap (λ (w : TopologyTuple). w.dest_addr) q) ∙ h.dest) here
          | inr k ↦ record {
            tuple = h.tuple;
            inside = k;
            dest = h.dest;
            last = h.last;
            number = h.number;
            until = h.until;
          }
        ];
      }

  abbrev new_tuple : Ipv4Address → TopologyTuple
  new_tuple addr = record {
    dest_addr = addr;
    last_addr = originator;
    sequence_number = ansn;
    expiration_time = expiry;
  }

  added :
      (addr : Ipv4Address) (v : List TopologyTuple)
      → IsCurrent originator ansn v
      → Advertised addr v (v ++ new_tuple addr ∷ [])
  added addr v c =
      let t = new_tuple addr in
      record {
        current =
            All-append (λ u. u.last_addr ≡ originator → u.sequence_number ≡ ansn) v (t ∷ []) c
              ((λ q. refl), tt);
        others = λ u j ne. In-append_left u v (t ∷ []) j;
        here = record {
          tuple = t;
          inside = In-append_right t v (t ∷ []) (inl refl);
          dest = refl;
          last = refl;
          number = refl;
          until = refl;
        };
        there = λ b h. record {
          tuple = h.tuple;
          inside = In-append_left h.tuple v (t ∷ []) h.inside;
          dest = h.dest;
          last = h.last;
          number = h.number;
          until = h.until;
        };
      }

  advertise-Advertised :
      (addr : Ipv4Address) (s : Protocol H S)
      → IsCurrent originator ansn s.topology
      → Advertised addr s.topology (advertise st x originator ansn expiry addr s).topology
  unfolding advertise schedule add_topology_tuple
  advertise-Advertised addr s c =
      elim-cases (λ (u : Protocol H S). Advertised addr s.topology u.topology)
        (st.topology.find (addr, originator) s.topology) _ _
        (λ n. rw (laws.topology.insert-new (new_tuple addr) s.topology n) (added addr s.topology c))
        (λ i e. renewed addr i s.topology e c)

  -- The result of the loop over the advertised addresses.
  pub record AllAdvertised (addrs : List Ipv4Address) (v w : List TopologyTuple) : Type 0 where
    pub current : IsCurrent originator ansn w
    pub others : KeepsOthers originator v w
    pub advertised : All (λ a. Has originator ansn expiry a w) addrs
    pub there : (b : Ipv4Address) → Has originator ansn expiry b v → Has originator ansn expiry b w

  pub advertise_all-AllAdvertised :
      (addrs : List Ipv4Address) (s : Protocol H S)
      → IsCurrent originator ansn s.topology
      → AllAdvertised addrs s.topology (advertise_all st x originator ansn expiry addrs s).topology
  unfolding advertise_all
  advertise_all-AllAdvertised [] s c = record {
    current = c;
    others = λ u j ne. j;
    advertised = tt;
    there = λ b h. h;
  }
  advertise_all-AllAdvertised (addr ∷ addrs) s c =
      let one = advertise-Advertised addr s c in
      let rest =
        advertise_all-AllAdvertised addrs (advertise st x originator ansn expiry addr s)
          one.current in
      record {
        current = rest.current;
        others = λ u j ne. rest.others u (one.others u j ne) ne;
        advertised = (rest.there addr one.here, rest.advertised);
        there = λ b h. rest.there b (one.there b h);
      }
