-- ===== src/Repositories/Interface.antt =====
-- One repository of ns-3's `OlsrState`, which is not part of this repository: a vector of tuples,
-- searched by a key. A pointer that a `Find` function returns is an index into the vector.
use maritime_mesh_network.Base.{
  ℕ, ◌≡◌, ◌≢◌, Option, none, some, List, [], ◌∷◌, ◌++◌, get_elem?, remove_at, All,
}

-- `Find…Tuple`, `Insert…Tuple` and `Erase…Tuple`.
pub record Repository (K T : Type 0) : Type 0 where
  pub find : K → List T → Option ℕ
  pub insert : T → List T → List T
  pub erase : T → List T → List T

-- What a pointer that was found points to.
unfoldable pub found : {K T : Type 0} → Repository K T → K → List T → Option T
found r k v = elim (r.find k v) [ none ↦ none | some i ↦ get_elem? v i ]

-- The documented behaviour: a search returns a tuple with the key, or none if there is none; a
-- tuple with a new key is put at the end; erasing a tuple of the set takes out one with its key.
pub record IsRepository {K T : Type 0} (key : T → K) (r : Repository K T) : Type 0 where
  pub find-some :
      (k : K) (v : List T) (i : ℕ)
      → r.find k v ≡ some i
      → (t : T) × (get_elem? v i ≡ some t) × (key t ≡ k)
  pub find-none : (k : K) (v : List T) → r.find k v ≡ none → All (λ t. key t ≢ k) v
  pub insert-new : (t : T) (v : List T) → r.find (key t) v ≡ none → r.insert t v ≡ v ++ t ∷ []
  pub erase-at :
      (t : T) (v : List T) (i : ℕ)
      → get_elem? v i ≡ some t
      → (j : ℕ) × (u : T) × (get_elem? v j ≡ some u)
        × (key u ≡ key t)
        × (r.erase t v ≡ remove_at j v)
