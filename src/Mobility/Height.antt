-- ===== src/Mobility/Height.antt =====
-- What `GetPredictedHeight` reads and returns on a node that `DoInitialize` has started.
use maritime_mesh_network.Base.{
  ℕ, zero, suc, ◌+◌, ◌*◌, ◌^◌, ◌≤◌, ◌<◌, ◌≡◌, refl, ap, sym, ◌∙◌, inl, inr, Option, none, some,
  List, [], ◌∷◌, ◌++◌, length, get_elem?, All, All-get, arith, Option-cases, Bool-cases, ltb, ◌⊎◌,
}
use maritime_mesh_network.Repositories.Clock.{Time}
use maritime_mesh_network.Mobility.{
  Doubles, Mobility, init_path, between, interpolate_at, interpolate, get_height,
  get_predicted_height, do_initialize,
}
use maritime_mesh_network.Mobility.Rows.{concat_rows, init_path-own_row}

module _ {D : Type 0} where
  get-below : (xs : List D) (i : ℕ) → i < length xs → (a : D) × (get_elem? xs i ≡ some a)
  get-below [] i h = absurd (omega arith)
  get-below (x ∷ xs) zero h = (x, refl)
  get-below (x ∷ xs) (suc i) h = get-below xs i (omega arith)

  get-past : (xs : List D) (i : ℕ) → length xs ≤ i → get_elem? xs i ≡ none
  get-past [] i h = refl
  get-past (x ∷ xs) zero h = absurd (omega arith)
  get-past (x ∷ xs) (suc i) h = get-past xs i (omega arith)

  module _ (d : Doubles D) where
    -- `DoInitialize` leaves the path of `InitPath` and the time step.
    do_initialize-path :
        (file : Option (List D)) (index steps : ℕ) (m n : Mobility D) (now : Time)
        → do_initialize d file index steps m now ≡ some n
        → (init_path d file index steps ≡ some n.path) × (n.timestep ≡ m.timestep)
    unfolding do_initialize get_height
    do_initialize-path file index steps m n now e =
        elim (Option-cases (init_path d file index steps)) [
          | inl p ↦ absurd (let q = rw p at e in cc)
          | inr (path, p) ↦
              elim (Option-cases (interpolate d path m.timestep (d.get_seconds now))) [
                | inl r ↦ absurd (let q = rw (p, r) at e in cc)
                | inr (z, r) ↦
                    let q : some (record m { path = path; height = z }) ≡ some n = rw (p, r) at e in
                    let same : record m { path = path; height = z } ≡ n = cc in
                    (
                      p ∙ ap (λ (u : Mobility D). some u.path) same,
                      ap (λ (u : Mobility D). u.timestep) (sym same),
                    )
              ]
        ]

    interpolate_lem :
        (path : List D) (timestep time : D) (T : ℕ)
        → d.to_uint16 (d.div time timestep) ≡ some T
        → ((T + 1 < length path)
            × (before : D) × (after : D) × (get_elem? path T ≡ some before)
            × (get_elem? path (T + 1) ≡ some after)
            × (interpolate d path timestep time ≡ some (between d before after T timestep time)))
          ⊎ (length path ≤ T + 1) × (interpolate d path timestep time ≡ none)
    unfolding interpolate interpolate_at
    interpolate_lem path timestep time T e = elim (Bool-cases (ltb (T + 1) (length path))) [
      | inl q ↦
          let (before, b) = get-below path T (ground arith) in
          let (after, a) = get-below path (T + 1) (ground arith) in
          inl (ground arith, before, after, b, a, rw (e, b, a) refl)
      | inr q ↦
          let past = get-past path (T + 1) (ground arith) in
          inr (
            ground arith,
            elim (Option-cases (get_elem? path T)) [
              | inl b ↦ rw (e, b) refl
              | inr (before, b) ↦ rw (e, b, past) refl
            ],
          )
    ]

    -- On a node that `DoInitialize` has started on a file of five header values and one row of
    -- `steps` heights for each node, `GetPredictedHeight` takes the samples of the node's own row
    -- before and after the time asked for. The earlier one counts by the time that is left to the
    -- later one, and the later one by the time that has passed since the earlier one, over the time
    -- step. If the row has no later sample, the read is past the end of the path. `steps` and
    -- `index * steps` are below 2^32, and `T` is the quotient of the time by the time step.
    pub get_predicted_height_lem :
        (header : List D) (rows : List (List D)) (steps index : ℕ) (row : List D) (m n : Mobility D)
        (start now t : Time) (T : ℕ)
        → length header ≡ 5
        → All (λ r. length r ≡ steps) rows
        → get_elem? rows index ≡ some row
        → steps < 2 ^ 32
        → index * steps < 2 ^ 32
        → do_initialize d (some (header ++ concat_rows rows)) index steps m start ≡ some n
        → d.to_uint16 (d.div (d.add (d.get_seconds now) (d.get_seconds t)) m.timestep) ≡ some T
        → let time = d.add (d.get_seconds now) (d.get_seconds t) in
          let left = d.sub (d.mul (d.from_int (T + 1)) m.timestep) time in
          let passed = d.sub time (d.mul (d.from_int T) m.timestep) in
          ((T + 1 < steps)
            × (before : D) × (after : D) × (get_elem? row T ≡ some before)
            × (get_elem? row (T + 1) ≡ some after)
            × (get_predicted_height d n now t
                ≡ some (d.div (d.add (d.mul before left) (d.mul after passed)) m.timestep)))
          ⊎ (steps ≤ T + 1) × (get_predicted_height d n now t ≡ none)
    unfolding get_predicted_height between
    get_predicted_height_lem header rows steps index row m n start now t T five h e few small i q =
        let (p, same) =
          do_initialize-path (some (header ++ concat_rows rows)) index steps m n start i in
        let own = init_path-own_row d header rows steps index row five h e few small in
        let wide : length row ≡ steps = All-get (λ r. length r ≡ steps) rows index row h e in
        let mine : row ≡ n.path = let both = sym own ∙ p in cc in
        let result =
          interpolate_lem row m.timestep (d.add (d.get_seconds now) (d.get_seconds t)) T q in
        rw (← mine, same, ← wide) result
