-- ===== src/Setup/Others.antt =====
-- `DoInitialize` changes the main address and the interface associations of the state only.
use maritime_mesh_network.Base.{
  ℕ, zero, suc, ◌+◌, ◌==◌, ◌≡◌, refl, sym, subst, Option, none, some, List, OnSome, OnSome-then,
  if-cases,
}
use maritime_mesh_network.Repositories.{Ipv4Address, IfaceAssocTuple}
use maritime_mesh_network.Routing.{Ipv4}
use maritime_mesh_network.Protocol.{Protocol, OlsrState, main_address_of, add_iface_assoc_tuple}
use maritime_mesh_network.Generate.{loopback}
use maritime_mesh_network.Setup.{
  own_tuple, own_interface, own_interfaces, choose_main_address, initialize,
}

on_some :
    {A B : Type 0} (o : Option A) (k : A → Option B) (P : B → Type 0)
    → ((a : A) → OnSome P (k a))
    → OnSome P (elim o [ none ↦ none | some a ↦ k a ])
on_some none k P h = tt
on_some (some a) k P h = h a

weaker :
    {A : Type 0} (P Q : A → Type 0) (o : Option A) → ((a : A) → P a → Q a) → OnSome P o → OnSome Q o
weaker P Q none f h = tt
weaker P Q (some a) f h = f a h

module _ {H S : Type 0} (st : OlsrState S) (ipv4 : Ipv4) where
  abbrev with_own : List IfaceAssocTuple → Protocol H S → Protocol H S
  with_own v s = record s { iface_assocs = v }

  -- Only the interface associations change in the loop.
  abbrev added : Ipv4Address → List IfaceAssocTuple → Protocol H S → Protocol H S
  added addr v s = with_own (st.iface_assoc.insert (own_tuple addr s.main_address) v) s

  own_interface-others :
      (addr : Ipv4Address) (v : List IfaceAssocTuple) (s : Protocol H S)
      → OnSome
          (λ (u : Protocol H S). u ≡ with_own u.iface_assocs s)
          (own_interface st ipv4 addr (with_own v s))
  unfolding own_interface add_iface_assoc_tuple
  own_interface-others addr v s =
      if-cases (OnSome (λ (u : Protocol H S). u ≡ with_own u.iface_assocs s))
        (addr == s.main_address) _ _ refl
        (if-cases (OnSome (λ (u : Protocol H S). u ≡ with_own u.iface_assocs s))
          (main_address_of st (added addr v s) addr == s.main_address) (some (added addr v s)) none
          refl tt)

  own_interfaces-others :
      (k i : ℕ) (v : List IfaceAssocTuple) (s : Protocol H S)
      → OnSome
          (λ (u : Protocol H S). u ≡ with_own u.iface_assocs s)
          (own_interfaces st ipv4 k i (with_own v s))
  unfolding own_interfaces
  own_interfaces-others zero i v s = refl
  own_interfaces-others (suc k) i v s =
      let addr = ipv4.get_address i 0 in
      OnSome-then (λ (u : Protocol H S). u ≡ with_own u.iface_assocs s)
        (λ (u : Protocol H S). u ≡ with_own u.iface_assocs s) _ _
        (if-cases (OnSome (λ (u : Protocol H S). u ≡ with_own u.iface_assocs s)) (addr == loopback)
          (some (with_own v s)) (own_interface st ipv4 addr (with_own v s)) refl
          (own_interface-others addr v s))
        (λ t e.
          subst
            (λ (u : Protocol H S).
              OnSome (λ (r : Protocol H S). r ≡ with_own r.iface_assocs s)
                (own_interfaces st ipv4 k (i + 1) u))
            (sym e) (own_interfaces-others k (i + 1) t.iface_assocs s))

  -- The state is the same but for the main address and the interface associations.
  abbrev pub IsOther : Protocol H S → Protocol H S → Type 0
  IsOther s u =
      (main : Ipv4Address) × (u ≡ record s { main_address = main; iface_assocs = u.iface_assocs })

  pub initialize-others :
      (unset : Ipv4Address) (s : Protocol H S) → OnSome (IsOther s) (initialize st ipv4 unset s)
  unfolding initialize
  initialize-others unset s =
      on_some (choose_main_address ipv4 unset s.main_address)
        (λ main. own_interfaces st ipv4 ipv4.n_interfaces 0 (record s { main_address = main }))
        (IsOther s)
        (λ main.
          let t : Protocol H S = record s { main_address = main } in
          weaker (λ (u : Protocol H S). u ≡ with_own u.iface_assocs t) (IsOther s)
            (own_interfaces st ipv4 ipv4.n_interfaces 0 t) (λ u e. (main, e))
            (own_interfaces-others ipv4.n_interfaces 0 s.iface_assocs t))
