-- ===== src/Routing/Hna/Cleared.antt =====
-- The loop of RoutingProtocol/ocean-protocol.cc that is to clear `m_hnaRoutingTable`.
use maritime_mesh_network.Base.{
  ℕ, zero, suc, ◌+◌, ◌-◌, ◌/◌, ◌≡◌, ◌<◌, ◌∙◌, sym, ap, refl, Bool-cases, inl, inr, some, List, [],
  ◌∷◌, length, arith, ltb,
}
use maritime_mesh_network.Routing.Hna.{StaticRouting, clear_routes}
use maritime_mesh_network.Routing.Hna.Contents.{HnaRoute, remove_at, IsStaticRouting}

abbrev pub drop : ℕ → List HnaRoute → List HnaRoute
drop zero xs = xs
drop (suc n) [] = []
drop (suc n) (x ∷ xs) = drop n xs

drop-remove_at : (k : ℕ) (xs : List HnaRoute) → drop k (remove_at 0 xs) ≡ drop (suc k) xs
drop-remove_at zero [] = refl
drop-remove_at (suc k) [] = refl
drop-remove_at k (x ∷ xs) = refl

length-remove_at : (xs : List HnaRoute) → length (remove_at 0 xs) ≡ length xs - 1
length-remove_at [] = refl
length-remove_at (x ∷ xs) = omega arith

module _ {S : Type 0} {r : StaticRouting S} {routes : S → List HnaRoute}
    (laws : IsStaticRouting r routes) where
  clear_routes_from :
      (fuel i : ℕ) (s : S)
      → r.n_routes s - i < fuel
      → (s' : S) × (clear_routes r fuel i s ≡ some s')
        × (routes s' ≡ drop ((r.n_routes s + 1 - i) / 2) (routes s))
  unfolding clear_routes
  clear_routes_from zero i s enough = absurd (omega arith)
  clear_routes_from (suc fuel) i s enough = elim (Bool-cases (ltb i (r.n_routes s))) [
    | inr stop ↦ let e : (r.n_routes s + 1 - i) / 2 ≡ 0 = ground arith in (s, rw stop, rw e)
    | inl more ↦
        let t = r.remove_route 0 s in
        let lt : i < r.n_routes s = ground arith in
        let n : r.n_routes t ≡ r.n_routes s - 1 =
          laws.count t
          ∙ ap length (laws.removed s 0)
          ∙ length-remove_at (routes s)
          ∙ ap (λ k. k - 1) (sym (laws.count s)) in
        let (s', e, q) = clear_routes_from fuel (i + 1) t (omega arith) in
        let k : (r.n_routes s + 1 - i) / 2 ≡ suc ((r.n_routes t + 1 - (i + 1)) / 2) = omega arith in
        (
          s',
          rw more e,
          q
              ∙ ap (drop ((r.n_routes t + 1 - (i + 1)) / 2)) (laws.removed s 0)
              ∙ drop-remove_at ((r.n_routes t + 1 - (i + 1)) / 2) (routes s)
              ∙ ap (λ j. drop j (routes s)) (sym k),
        )
  ]

  -- The loop ends, and takes out only the first half of the routes, rounded up: the index grows
  -- while the number of routes falls. The last half stays in the table.
  pub clear_routes_half :
      (s : S)
      → (s' : S) × (clear_routes r (suc (r.n_routes s)) 0 s ≡ some s')
        × (routes s' ≡ drop ((r.n_routes s + 1) / 2) (routes s))
  clear_routes_half s =
      let (s', e, q) = clear_routes_from (suc (r.n_routes s)) 0 s (omega arith) in
      let k : (r.n_routes s + 1 - 0) / 2 ≡ (r.n_routes s + 1) / 2 = omega arith in
      (s', e, rw k at q)
