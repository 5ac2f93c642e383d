-- ===== src/Tests/Networks.antt =====
-- The routes to other networks of RoutingProtocol/ocean-protocol.cc, over a table of routes that is
-- a list.
use maritime_mesh_network.Base.{
  ℕ, zero, suc, ◌+◌, ◌/◌, ◌≡◌, ◌∙◌, ap, refl, some, List, [], ◌∷◌, ◌++◌, length,
}
use maritime_mesh_network.Base.Int.{pos}
use maritime_mesh_network.Base.Dict
use maritime_mesh_network.Repositories.{AssociationTuple, Association}
use maritime_mesh_network.Routing.{Table}
use maritime_mesh_network.Routing.Entries.{entry}
use maritime_mesh_network.Routing.Hna.{
  StaticRouting, hna_routes, clear_routes, add_associations, add_association, route_by, add_route,
  route_index, is_local,
}
use maritime_mesh_network.Routing.Hna.Contents.{HnaRoute, remove_at, IsStaticRouting}
use maritime_mesh_network.Routing.Hna.Cleared.{drop, clear_routes_half}
use maritime_mesh_network.Routing.Hna.Best.{IsHnaTable, hna_routes-IsHnaTable}

abbrev read_route : {A : Type 0} → (HnaRoute → A) → A → List HnaRoute → ℕ → A
read_route f default [] i = default
read_route f default (x ∷ xs) zero = f x
read_route f default (x ∷ xs) (suc i) = read_route f default xs i

abbrev pub listed : StaticRouting (List HnaRoute)
listed = record {
  n_routes = length;
  dest_network = read_route (λ x. x.network) 0;
  dest_network_mask = read_route (λ x. x.mask) 0;
  metric = read_route (λ x. x.metric) 0;
  remove_route = remove_at;
  add_network_route_to = λ n m g i d xs.
      xs ++ record { network = n; mask = m; gateway = g; interface = i; metric = d } ∷ [];
}

read_route_at :
    {A : Type 0} (f : HnaRoute → A) (default : A) (before after : List HnaRoute) (x : HnaRoute)
    → read_route f default (before ++ x ∷ after) (length before) ≡ f x
read_route_at f default [] after x = refl
read_route_at f default (y ∷ before) after x = read_route_at f default before after x

read_route_of :
    {A : Type 0} (f : HnaRoute → A) (default : A) (xs before after : List HnaRoute) (x : HnaRoute)
    → xs ≡ before ++ x ∷ after
    → read_route f default xs (length before) ≡ f x
read_route_of f default xs before after x e =
    ap (λ l. read_route f default l (length before)) e ∙ read_route_at f default before after x

pub listed-IsStaticRouting : IsStaticRouting listed (λ xs. xs)
listed-IsStaticRouting = record {
  count = λ s. refl;
  read = λ s before after x e. (
    read_route_of (λ z. z.network) 0 s before after x e,
    read_route_of (λ z. z.mask) 0 s before after x e,
    read_route_of (λ z. z.metric) 0 s before after x e,
  );
  removed = λ s i. refl;
  added = λ s x. refl;
}

abbrev route : ℕ → ℕ → HnaRoute
route network metric = record {
  network = network;
  mask = 255;
  gateway = 2;
  interface = 1;
  metric = metric;
}

abbrev announced : ℕ → ℕ → AssociationTuple
announced gateway network = record {
  gateway_addr = gateway;
  network_addr = network;
  netmask = 255;
  expiration_time = pos 9;
}

abbrev table : Table
table = (2, entry 2 2 1 1) ∷ (3, entry 3 2 1 2) ∷ []

abbrev associations : List AssociationTuple
associations = announced 3 70 ∷ announced 2 70 ∷ announced 2 80 ∷ announced 9 90 ∷ []

abbrev locals : List Association
locals = record { network_addr = 80; netmask = 255 } ∷ []

abbrev before : List HnaRoute
before = route 10 1 ∷ route 20 1 ∷ route 30 1 ∷ []

hna_routes_run :
    hna_routes listed table locals associations before ≡ some (route 30 1 ∷ route 70 1 ∷ [])
unfolding hna_routes clear_routes add_associations add_association route_by add_route route_index
    is_local Dict.lookup
hna_routes_run = refl

hna_routes-IsHnaTable_example :
    (after : List HnaRoute) × (hna_routes listed table locals associations before ≡ some after)
    × IsHnaTable table locals associations before after
hna_routes-IsHnaTable_example =
    hna_routes-IsHnaTable listed-IsStaticRouting table locals associations before

clear_routes_half_example :
    (after : List HnaRoute) × (clear_routes listed 4 0 before ≡ some after)
    × (after ≡ drop ((3 + 1) / 2) before)
clear_routes_half_example = clear_routes_half listed-IsStaticRouting before
