-- ===== src/Iterator/Build.antt =====
-- The builders of internal/driver/network/naming/iterator.go and `resolveAddress` of resolve.go. DNS, the context,
-- the random order and the upper case are parameters.
use go_oracledb.Base.{
  ℕ, zero, suc, ◌+◌, Bool, false, Option, none, some, List, [], ◌∷◌, ◌++◌, length, get_elem?, map,
  ltb, ◌==◌, if◌then◌else◌,
}
use go_oracledb.Base.Runes.{Runes, runes_eq}
use go_oracledb.Base.Outcome.{Outcome, ok, panic, ◌>>=◌}
use go_oracledb.Naming.Node.{
  Error, Node, Nodes, node, nil, cons, node_name, children_of, find_child, to_string,
}
use go_oracledb.Naming.Parser.{get_node}
use go_oracledb.Iterator.Options.{Address, AddressList, Description, codes}
use go_oracledb.Iterator.Attempts.{
  DescriptionAttempts, ConnectionIterator, Surroundings, reorder_addresses, reorder_descriptions,
}
use mathlib.Core.Logic.{ite}

pub record DescriptionList : Type 0 where
  pub load_balance : Bool
  pub failover : Bool
  pub descriptions : List Description

-- What the iterator reads of a `ConnectionContext`.
pub record ConnectionContext : Type 0 where
  pub description_list : Option DescriptionList
  pub description : Option Description
  pub addresses : List Address

-- `net.ParseIP` finds an address, `LookupIPAddr` gives addresses or an error, `ctx.Err()` is an error in the n-th
-- call, and `rng.Shuffle` of indices.
pub record Resolver : Type 0 where
  pub is_ip : Runes → Bool
  pub lookup_ip_addr : Runes → Option (List Runes)
  pub expired : ℕ → Bool
  pub shuffle_indices : List ℕ → List ℕ

-- `resolveAddressWithLookup`, with none where the context has ended.
unfoldable pub resolve_address : Resolver → ℕ → Address → Option (List Address)
resolve_address r call a =
    if r.expired call
    then none
    else if r.is_ip a.host
    then some (record a { resolved_ip = a.host } ∷ [])
    else elim (r.lookup_ip_addr a.host) [
      | none ↦ some (a ∷ [])
      | some [] ↦ some (a ∷ [])
      | some (ip ∷ ips) ↦ some (map (λ (x : Runes). record a { resolved_ip = x }) (ip ∷ ips))
    ]

-- The loop over the addresses.
unfoldable pub resolve_addresses : Resolver → ℕ → List Address → List Address
unfolding resolve_address
resolve_addresses r call [] = []
resolve_addresses r call (a ∷ rest) = elim (resolve_address r call a) [
  | none ↦ []
  | some expanded ↦ expanded ++ resolve_addresses r (suc call) rest
]

-- `collectAllAddresses`.
unfoldable pub list_addresses : List AddressList → List Address
list_addresses [] = []
list_addresses (l ∷ ls) =
    let rest = list_addresses ls in if length l.addresses == 0 then rest else l.addresses ++ rest

unfoldable pub collect_all_addresses : Description → List Address
unfolding list_addresses
collect_all_addresses d = list_addresses d.address_lists ++ d.addresses

abbrev empty_connect_data : Node
empty_connect_data = node (codes "CONNECT_DATA") [] nil

unfoldable pub nth_description : ℕ → Nodes → Option Node
unfolding runes_eq
nth_description index nil = none
nth_description zero (cons n ns) =
    ite (runes_eq (node_name n) (codes "DESCRIPTION")) (some n) (nth_description zero ns)
nth_description (suc index) (cons n ns) =
    ite (runes_eq (node_name n) (codes "DESCRIPTION")) (nth_description index ns)
      (nth_description (suc index) ns)

-- `findDescriptionNode`.
unfoldable pub find_description_node : Option Node → ℕ → Option Node
unfolding nth_description runes_eq
find_description_node none index = none
find_description_node (some root) index =
    ite (runes_eq (node_name root) (codes "DESCRIPTION_LIST"))
      (nth_description index (children_of root)) none

-- `buildFromAddresses`.
unfoldable pub build_from_addresses :
    Surroundings → Resolver → List Address → List DescriptionAttempts
unfolding resolve_addresses reorder_addresses
build_from_addresses s r addresses =
    let resolved = resolve_addresses r 0 addresses in
    if length addresses == 0
    then []
    else if length resolved == 0
    then []
    else record {
      description = none;
      addresses = reorder_addresses s resolved;
      connect_data_node = empty_connect_data;
      connect_data_str = [];
      retry_count = 0;
      retry_delay = 0;
      current_cycle = 0;
      current_addr_index = 0;
    }
      ∷ []

-- The indices 0, ..., n - 1.
unfoldable pub indices_from : ℕ → ℕ → List ℕ
indices_from start zero = []
indices_from start (suc n) = start ∷ indices_from (suc start) n

-- `xs[:1]`, which panics on an empty slice.
unfoldable pub first_only {ℓ} : {A : Type ℓ} → List A → Outcome Error (List A)
first_only [] = panic
first_only (x ∷ xs) = ok (x ∷ [])

-- The addresses of a description in the order of its first cycle.
unfoldable pub first_addresses :
    Surroundings → Description → List Address → Outcome Error (List Address)
unfolding reorder_addresses first_only
first_addresses s d resolved = do
  let ordered = if d.load_balance then s.shuffle resolved else resolved
  chosen ← if d.failover then ok ordered else first_only ordered
  ok (reorder_addresses s chosen)

module _ (to_upper : ℕ → ℕ) where
  -- `extractConnectDataNode`.
  unfoldable pub extract_connect_data_node : Option Node → Node
  unfolding get_node find_child
  extract_connect_data_node none = empty_connect_data
  extract_connect_data_node (some desc) =
      elim (get_node to_upper desc (codes "DESCRIPTION/CONNECT_DATA")) [
        | ok n ↦ n
        | _ ↦ elim (find_child (codes "CONNECT_DATA") (children_of desc)) [
          | none ↦ empty_connect_data
          | some n ↦ n
        ]
      ]

  -- `buildFromDescription`.
  unfoldable pub build_from_description :
      Surroundings
      → Resolver
      → ℕ
      → Description
      → Option Node
      → Outcome Error (Option DescriptionAttempts)
  unfolding collect_all_addresses resolve_addresses first_addresses extract_connect_data_node
  build_from_description s r call d desc_node =
      let addresses = collect_all_addresses d in
      let resolved = resolve_addresses r call addresses in
      let connect_data = extract_connect_data_node desc_node in
      if length addresses == 0 then ok none else if length resolved == 0 then ok none else do
        chosen ← first_addresses s d resolved
        ok (
            some (record {
              description = some d;
              addresses = chosen;
              connect_data_node = connect_data;
              connect_data_str = to_string connect_data;
              retry_count = d.retry_count;
              retry_delay = d.retry_delay;
              current_cycle = 0;
              current_addr_index = 0;
            }))

  -- The loop over the indices of the descriptions. The resolver of a description counts its calls from `call`.
  unfoldable pub build_each :
      Surroundings
      → Resolver
      → Option Node
      → List Description
      → ℕ
      → List ℕ
      → Outcome Error (List DescriptionAttempts)
  unfolding find_description_node build_from_description
  build_each s r root descriptions call [] = ok []
  build_each s r root descriptions call (i ∷ is) = elim (find_description_node root i) [
    | none ↦ build_each s r root descriptions call is
    | some n ↦ elim (get_elem? descriptions i) [
      | none ↦ panic
      | some d ↦ do
        own ← build_from_description s r call d (some n)
        rest ← build_each s r root descriptions (call + length (collect_all_addresses d)) is
        ok (elim own [ none ↦ rest | some a ↦ a ∷ rest ])
    ]
  ]

  -- `buildFromDescriptionList`.
  unfoldable pub build_from_description_list :
      Surroundings
      → Resolver
      → Option Node
      → DescriptionList
      → Outcome Error (List DescriptionAttempts)
  unfolding indices_from first_only build_each reorder_descriptions
  build_from_description_list s r root dl =
      let indices = indices_from 0 (length dl.descriptions) in
      let ordered = if dl.load_balance then r.shuffle_indices indices else indices in
      if length dl.descriptions == 0 then ok [] else do
        chosen ← if dl.failover then ok ordered else first_only ordered
        attempts ← build_each s r root dl.descriptions 0 chosen
        ok (reorder_descriptions s attempts)

  -- `buildDescriptionAttempts`.
  unfoldable pub build_description_attempts :
      Surroundings
      → Resolver
      → Option Node
      → ConnectionContext
      → Outcome Error (List DescriptionAttempts)
  unfolding build_from_description_list build_from_description build_from_addresses
  build_description_attempts s r root c = elim c.description_list [
    | some dl ↦ build_from_description_list s r root dl
    | none ↦ elim c.description [
      | some d ↦ do
        own ← build_from_description s r 0 d root
        ok (elim own [ none ↦ [] | some a ↦ a ∷ [] ])
      | none ↦ ok (if ltb 0 (length c.addresses) then build_from_addresses s r c.addresses else [])
    ]
  ]

  -- `NewConnectionIterator`.
  unfoldable pub new_connection_iterator :
      Surroundings → Resolver → Option Node → ConnectionContext → Outcome Error ConnectionIterator
  unfolding build_description_attempts
  new_connection_iterator s r root c = do
    attempts ← build_description_attempts s r root c
    ok (record { passed = []; left = attempts; exhausted = false })
