-- ===== src/Protocol/Timed.antt =====
-- The bookkeeping of expiry events: a repository is timed when no two of its tuples have the same
-- key and every tuple has a scheduled event for its key. Lemmas on one repository under the
-- operations that the handlers and timers are made of.
use maritime_mesh_network.Base.{
  ℕ, zero, suc, ◌≡◌, ◌≢◌, refl, ap, subst, ◌∙◌, ◌⊎◌, In, All-get, In-remove_at, Distinct-unique,
  inl, inr, none, some, List, [], ◌∷◌, arith, All, All-modify, All-remove_at, All-append, All_map,
  Distinct, Distinct-remove_at, Distinct-modify, Distinct-append, get_elem?, modify, remove_at,
  Option-cases,
}
use maritime_mesh_network.Repositories.Clock.{Time}
use maritime_mesh_network.Repositories.Interface.{Repository, IsRepository, found}
use maritime_mesh_network.Protocol.{Event}

-- An event is scheduled, at any time.
abbrev pub Pending : Event → List (Time × Event) → Type 0
Pending e [] = ⊥
Pending e ((at, f) ∷ es) = (e ≡ f) ⊎ Pending e es

-- The event that fires may as well stand first.
pub Pending-front :
    (e : Event) (i : ℕ) (es : List (Time × Event)) (p : Time × Event)
    → get_elem? es i ≡ some p
    → Pending e es
    → Pending e (p ∷ remove_at i es)
Pending-front e i [] p q h = absurd h
Pending-front e zero (f ∷ es) p q h = ground arith
Pending-front e (suc i) ((at, f) ∷ es) p q (inl h) = inr (inl h)
Pending-front e (suc i) ((at, f) ∷ es) p q (inr h) = elim (Pending-front e i es p q h) [
  | inl a ↦ inl a
  | inr b ↦ inr (inr b)
]

module _ {K T : Type 0} (key : T → K) (event : K → Event) where
  pub record IsTimed (v : List T) (es : List (Time × Event)) : Type 0 where
    pub distinct : Distinct key v
    pub pending : All (λ t. Pending (event (key t)) es) v

  -- Further events do no harm.
  pub IsTimed-more :
      (v : List T) (es es' : List (Time × Event))
      → ((e : Event) → Pending e es → Pending e es')
      → IsTimed v es
      → IsTimed v es'
  IsTimed-more v es es' more h = record {
    distinct = h.distinct;
    pending = All_map (λ t p. more (event (key t)) p) v h.pending;
  }

  -- A write that keeps the keys.
  pub IsTimed-modify :
      (i : ℕ) (f : T → T) (v : List T) (es : List (Time × Event))
      → ((t : T) → get_elem? v i ≡ some t → key (f t) ≡ key t)
      → IsTimed v es
      → IsTimed (modify i f v) es
  IsTimed-modify i f v es keeps h = record {
    distinct = Distinct-modify key i f v keeps h.distinct;
    pending =
        All-modify (λ t. Pending (event (key t)) es) i f v (λ t e p. rw (keeps t e) p) h.pending;
  }

  -- The first event is dropped, when no tuple needs it.
  pub IsTimed-drop :
      (v : List T) (es : List (Time × Event)) (p : Time × Event)
      → All (λ t. event (key t) ≢ p.1) v
      → IsTimed v (p ∷ es)
      → IsTimed v es
  IsTimed-drop v es p ne h = record { distinct = h.distinct; pending = go v ne h.pending }
    where
      go :
          (u : List T)
          → All (λ t. event (key t) ≢ p.1) u
          → All (λ t. Pending (event (key t)) (p ∷ es)) u
          → All (λ t. Pending (event (key t)) es) u
      go [] n h = tt
      go (t ∷ u) n (inl e, h) = absurd (n.0 e)
      go (t ∷ u) n (inr e, h) = (e, go u n.1 h)

  module _ (r : Repository K T) (laws : IsRepository key r) where
    -- A new tuple is inserted and its event scheduled.
    pub IsTimed-insert :
        (t : T) (at : Time) (v : List T) (es : List (Time × Event))
        → r.find (key t) v ≡ none
        → IsTimed v es
        → IsTimed (r.insert t v) ((at, event (key t)) ∷ es)
    IsTimed-insert t at v es e h = rw (laws.insert-new t v e) (record {
      distinct = Distinct-append key v t h.distinct (laws.find-none (key t) v e);
      pending =
          All-append (λ u. Pending (event (key u)) ((at, event (key t)) ∷ es)) v (t ∷ [])
            (All_map (λ u p. inr p) v h.pending) (inl refl, tt);
    })

    -- A tuple that was found is erased, and then no tuple has its key.
    pub IsTimed-erase :
        (k : K) (t : T) (v : List T) (es : List (Time × Event))
        → found r k v ≡ some t
        → IsTimed v es
        → IsTimed (r.erase t v) es × All (λ u. key u ≢ k) (r.erase t v)
    unfolding found
    IsTimed-erase k t v es f h = elim (Option-cases (r.find k v)) [
      | inl n ↦ absurd cc
      | inr (j, e) ↦
          let (u, g, same) = laws.find-some k v j e in
          let here : get_elem? v j ≡ some t = ground arith in
          let tk : key t ≡ k = ground arith in
          let (l, w, gw, kw, er) = laws.erase-at t v j here in
          let (d, others) = Distinct-remove_at key l v w gw h.distinct in
          (
            rw er (record {
              distinct = d;
              pending = All-remove_at (λ y. Pending (event (key y)) es) l v h.pending;
            }),
            rw er (subst (λ m. All (λ u. key u ≢ m) (remove_at l v)) (kw ∙ tk) others),
          )
    ]

    -- A search that finds nothing.
    pub found-none : (k : K) (v : List T) → found r k v ≡ none → All (λ t. key t ≢ k) v
    unfolding found
    found-none k v f = elim (Option-cases (r.find k v)) [
      | inl n ↦ laws.find-none k v n
      | inr (j, e) ↦ let (u, g, same) = laws.find-some k v j e in absurd cc
    ]

    -- A search that finds a tuple.
    pub found-some : (k : K) (v : List T) (t : T) → found r k v ≡ some t → key t ≡ k
    unfolding found
    found-some k v t f = elim (Option-cases (r.find k v)) [
      | inl n ↦ absurd cc
      | inr (j, e) ↦ let (u, g, same) = laws.find-some k v j e in ground arith
    ]

    -- Erasing a tuple that was found leaves every other tuple.
    pub In-erase :
        (k : K) (t u : T) (v : List T)
        → Distinct key v
        → found r k v ≡ some t
        → In u v
        → (u ≡ t) ⊎ In u (r.erase t v)
    unfolding found
    In-erase k t u v d f h = elim (Option-cases (r.find k v)) [
      | inl n ↦ absurd cc
      | inr (i, e) ↦
          let here : get_elem? v i ≡ some t = ground arith in
          let (j, w, gw, kw, er) = laws.erase-at t v i here in
          let one : w ≡ t = Distinct-unique key j i v w t d gw here kw in
          elim (In-remove_at j v u w gw h) [ inl q ↦ inl (q ∙ one) | inr o ↦ inr (rw er o) ]
    ]

    -- A search finds the tuple with the key, wherever it stands.
    pub found-at :
        (v : List T) (i : ℕ) (t : T)
        → Distinct key v
        → get_elem? v i ≡ some t
        → found r (key t) v ≡ some t
    unfolding found
    found-at v i t d g = elim (Option-cases (r.find (key t) v)) [
      | inl n ↦ absurd (All-get (λ u. key u ≢ key t) v i t (laws.find-none (key t) v n) g refl)
      | inr (j, e) ↦
          let (u, gu, same) = laws.find-some (key t) v j e in
          let one : u ≡ t = Distinct-unique key j i v u t d gu g same in
          rw (e, found) (gu ∙ ap some one)
    ]
