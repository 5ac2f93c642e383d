-- ===== src/Routing/Entries.antt =====
-- `AddEntry` and `Lookup` of RoutingProtocol/ocean-protocol.cc, and tables whose next hops are
-- direct: what an insertion keeps.
use maritime_mesh_network.Base.{
  ℕ, ◌⊎◌, ◌==◌, ◌≡◌, ◌∙◌, sym, refl, Bool, true, false, none, some, arith, if◌then◌else◌,
  Bool-cases, inl, inr, Option-cases, ==_iff,
}
use maritime_mesh_network.Base.Dict
use maritime_mesh_network.Repositories.{Ipv4Address}
use maritime_mesh_network.Routing.{
  RoutingTableEntry, Table, Ipv4, clear, lookup, add_entry, add_entry_at, interface_with,
}

abbrev pub entry : Ipv4Address → Ipv4Address → ℕ → ℕ → RoutingTableEntry
entry dest next i k = record { dest_addr = dest; next_addr = next; interface = i; distance = k }

pub lookup-add_entry :
    (dest next : Ipv4Address) (i k : ℕ) (t : Table) (a : Ipv4Address)
    → lookup a (add_entry dest next i k t)
      ≡ (if dest == a then some (entry dest next i k) else lookup a t)
unfolding add_entry
lookup-add_entry dest next i k t a = Dict.lookup-insert dest a (entry dest next i k) t

-- `AddEntry` with an address adds an entry for some interface.
pub add_entry_at-eq :
    (ipv4 : Ipv4) (dest next addr : Ipv4Address) (k : ℕ) (t : Table)
    → (i : ℕ) × (add_entry_at ipv4 dest next addr k t ≡ add_entry dest next i k t)
unfolding add_entry_at
add_entry_at-eq ipv4 dest next addr k t =
    elim (Option-cases (interface_with ipv4 addr ipv4.n_interfaces 0)) [
      | inl e ↦ (0, rw (e, add_entry_at))
      | inr (i, e) ↦ (i, rw (e, add_entry_at))
    ]

-- The entry for `a` leads to `a` itself, in one hop.
abbrev pub IsDirect : Table → Ipv4Address → Type 0
IsDirect t a =
    (f : RoutingTableEntry) × (lookup a t ≡ some f) × (f.next_addr ≡ a) × (f.distance ≡ 1)

-- Every entry is stored under its destination, and its next hop is direct. An address that is its
-- own next hop satisfies `backed`.
pub record IsRooted (backed : Ipv4Address → Bool) (t : Table) : Type 0 where
  pub keyed : (a : Ipv4Address) (e : RoutingTableEntry) → lookup a t ≡ some e → e.dest_addr ≡ a
  pub direct :
      (a : Ipv4Address) (e : RoutingTableEntry) → lookup a t ≡ some e → IsDirect t e.next_addr
  pub own :
      (a : Ipv4Address) (e : RoutingTableEntry)
      → lookup a t ≡ some e
      → e.next_addr ≡ a
      → backed a ≡ true

-- What an entry for `a` leads to after an insertion.
pub lookup_cases :
    (dest next : Ipv4Address) (i k : ℕ) (t : Table) (a : Ipv4Address) (e : RoutingTableEntry)
    → lookup a (add_entry dest next i k t) ≡ some e
    → ((dest ≡ a) × (e ≡ entry dest next i k)) ⊎ (lookup a t ≡ some e)
lookup_cases dest next i k t a e h = ground (arith, lookup-add_entry dest next i k t a)

module _ (dest next : Ipv4Address) (i k : ℕ) (t : Table) where
  abbrev after : Table
  after = add_entry dest next i k t

  -- No other address is touched.
  lookup_other : (a : Ipv4Address) → (dest == a) ≡ false → lookup a after ≡ lookup a t
  lookup_other a e = lookup-add_entry dest next i k t a ∙ rw e

  lookup_self : lookup dest after ≡ some (entry dest next i k)
  lookup_self = lookup-add_entry dest next i k t dest ∙ rw ((==_iff dest dest).1 refl)

  -- An address that was direct stays so, if the insertion does not hide a direct one.
  pub add_entry-IsDirect :
      ((f : RoutingTableEntry) → lookup dest t ≡ some f → f.next_addr ≡ dest → ⊥)
      → (a : Ipv4Address) → IsDirect t a
      → IsDirect after a
  add_entry-IsDirect fresh a (f, e, n, d) = elim (Bool-cases (dest == a)) [
    | inl q ↦ let p = (==_iff dest a).0 q in absurd (fresh f (rw p e) (n ∙ sym p))
    | inr q ↦ (f, lookup_other a q ∙ e, n, d)
  ]

module _ (backed : Ipv4Address → Bool) (dest : Ipv4Address) (i : ℕ) (t : Table) where
  abbrev own_entry : Table
  own_entry = add_entry dest dest i 1 t

  pub add_own-IsDirect_self : IsDirect own_entry dest
  add_own-IsDirect_self = (entry dest dest i 1, lookup_self dest dest i 1 t, refl, refl)

  pub add_own-IsDirect : (a : Ipv4Address) → IsDirect t a → IsDirect own_entry a
  add_own-IsDirect a (f, e, n, d) = elim (Bool-cases (dest == a)) [
    | inl q ↦ rw (← (==_iff dest a).0 q) add_own-IsDirect_self
    | inr q ↦ (f, lookup_other dest dest i 1 t a q ∙ e, n, d)
  ]

  -- An entry that leads to itself in one hop keeps a rooted table rooted.
  pub add_own-IsRooted : backed dest ≡ true → IsRooted backed t → IsRooted backed own_entry
  add_own-IsRooted ok h = record {
    keyed = λ a e l. elim (lookup_cases dest dest i 1 t a e l) [
      | inl (p, q) ↦ rw q p
      | inr old ↦ h.keyed a e old
    ];
    direct = λ a e l. elim (lookup_cases dest dest i 1 t a e l) [
      | inl (p, q) ↦ rw q add_own-IsDirect_self
      | inr old ↦ add_own-IsDirect e.next_addr (h.direct a e old)
    ];
    own = λ a e l n. elim (lookup_cases dest dest i 1 t a e l) [
      | inl (p, q) ↦ rw (← p) ok
      | inr old ↦ h.own a e old n
    ];
  }

module _ (backed : Ipv4Address → Bool) (dest next : Ipv4Address) (i k : ℕ) (t : Table) where
  -- So does an entry whose next hop is direct, where it hides no direct entry.
  pub add_via-IsRooted :
      ((f : RoutingTableEntry) → lookup dest t ≡ some f → f.next_addr ≡ dest → ⊥)
      → IsDirect t next
      → IsRooted backed t
      → IsRooted backed (add_entry dest next i k t)
  add_via-IsRooted fresh d h = record {
    keyed = λ a e l. elim (lookup_cases dest next i k t a e l) [
      | inl (p, q) ↦ rw q p
      | inr old ↦ h.keyed a e old
    ];
    direct = λ a e l. elim (lookup_cases dest next i k t a e l) [
      | inl (p, q) ↦ rw q (add_entry-IsDirect dest next i k t fresh next d)
      | inr old ↦ add_entry-IsDirect dest next i k t fresh e.next_addr (h.direct a e old)
    ];
    own = λ a e l n. elim (lookup_cases dest next i k t a e l) [
      | inl (p, q) ↦
          let (f, s, m, _) = d in let r : next ≡ dest = cc in absurd (fresh f (rw (← r) s) (m ∙ r))
      | inr old ↦ h.own a e old n
    ];
  }

module _ (dest : Ipv4Address) (t : Table) where
  -- An address without an entry hides none.
  pub fresh_of_none :
      lookup dest t ≡ none
      → (f : RoutingTableEntry) → lookup dest t ≡ some f
      → f.next_addr ≡ dest
      → ⊥
  fresh_of_none e f l n = cc

  -- An address that is not backed hides no direct one.
  pub fresh_of_unbacked :
      (backed : Ipv4Address → Bool)
      → IsRooted backed t
      → backed dest ≡ false
      → (f : RoutingTableEntry) → lookup dest t ≡ some f
      → f.next_addr ≡ dest
      → ⊥
  fresh_of_unbacked backed h no_backing f l n = cc (h.own dest f l n)

pub lookup-clear : (a : Ipv4Address) → lookup a clear ≡ none
unfolding Dict.lookup
lookup-clear a = refl

pub clear-IsRooted : (backed : Ipv4Address → Bool) → IsRooted backed clear
clear-IsRooted backed = record {
  keyed = λ a e l. cc (lookup-clear a);
  direct = λ a e l. cc (lookup-clear a);
  own = λ a e l n. cc (lookup-clear a);
}
