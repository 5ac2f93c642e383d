-- ===== src/Mobility/Rows.antt =====
-- `InitPath` on a file of one header and one row of heights for each node.
use maritime_mesh_network.Base.{
  ℕ, zero, suc, ◌*◌, ◌%◌, ◌^◌, ◌<◌, ◌≡◌, refl, sym, ◌∙◌, ap, some, List, [], ◌∷◌, ◌++◌, length,
  length-append, get_elem?, ltb, true, subst, All, All-get, arith,
}
use maritime_mesh_network.Mobility.{skip_values, read_values, init_path, Doubles}
use mathlib.Core.List.{append_assoc}

module _ {D : Type 0} where
  abbrev pub concat_rows : List (List D) → List D
  concat_rows [] = []
  concat_rows (row ∷ rows) = row ++ concat_rows rows

  skip-append : (xs ys : List D) → skip_values (length xs) (xs ++ ys) ≡ ys
  unfolding skip_values
  skip-append [] ys = refl
  skip-append (x ∷ xs) ys = skip-append xs ys

  skip_rows :
      (rows : List (List D)) (steps i : ℕ) (row : List D)
      → All (λ r. length r ≡ steps) rows
      → get_elem? rows i ≡ some row
      → (front rest : List D) × (concat_rows rows ≡ front ++ (row ++ rest))
        × (length front ≡ i * steps)
  skip_rows [] steps i row h e = cc
  skip_rows (r ∷ rows) steps zero row h e =
      let same : r ≡ row = cc in
      ([], concat_rows rows, ap (λ q. q ++ concat_rows rows) same, omega arith)
  skip_rows (r ∷ rows) steps (suc i) row h e =
      let (front, rest, c, l) = skip_rows rows steps i row h.1 e in
      (
        r ++ front,
        rest,
        ap (λ q. r ++ q) c ∙ sym (append_assoc r front (row ++ rest)),
        grind (arith, length-append r front, h.0, l),
      )

  module _ (d : Doubles D) where
    read-append : (xs ys : List D) → read_values d (length xs) (xs ++ ys) ≡ xs
    unfolding read_values
    read-append [] ys = refl
    read-append (x ∷ xs) ys = ap (λ zs. x ∷ zs) (read-append xs ys)

    -- In a file of five header values and one row of `steps` heights for each node, the node with id
    -- `index` gets its own row as its path, if `steps` and `index * steps` are below 2^32.
    pub init_path-own_row :
        (header : List D) (rows : List (List D)) (steps index : ℕ) (row : List D)
        → length header ≡ 5
        → All (λ r. length r ≡ steps) rows
        → get_elem? rows index ≡ some row
        → steps < 2 ^ 32
        → index * steps < 2 ^ 32
        → init_path d (some (header ++ concat_rows rows)) index steps ≡ some row
    unfolding init_path
    init_path-own_row header rows steps index row five h e few small =
        let (front, rest, c, l) = skip_rows rows steps index row h e in
        let count : index * steps % 2 ^ 32 ≡ length front = omega (arith, small, l) in
        let wide : length row ≡ steps = All-get (λ r. length r ≡ steps) rows index row h e in
        let enough : ltb steps (2 ^ 32) ≡ true = ground (arith, few) in
        let skipped : skip_values 5 (header ++ concat_rows rows) ≡ concat_rows rows =
          subst (λ n. skip_values n (header ++ concat_rows rows) ≡ concat_rows rows) five
            (skip-append header (concat_rows rows)) in
        let read : read_values d steps (row ++ rest) ≡ row =
          subst (λ n. read_values d n (row ++ rest) ≡ row) wide (read-append row rest) in
        rw (enough, skipped, count, c)
          (ap some (ap (read_values d steps) (skip-append front (row ++ rest)) ∙ read))
