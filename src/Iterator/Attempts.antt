-- ===== src/Iterator/Attempts.antt =====
-- `ConnectionIterator` of internal/driver/network/naming/iterator.go: `Next`, `HasNext`, `Reset`,
-- `Remaining` and `Total`. The index of the current description is the split of the attempts into those
-- that are passed and those that are left.
use go_oracledb.Base.{
  ℕ, zero, suc, ◌+◌, ◌-◌, ◌*◌, ◌^◌, ◌%◌, Bool, true, false, ◌&&◌, Option, none, some, List, [], ◌∷◌,
  ◌++◌, map, length, get_elem?, ltb, if◌then◌else◌,
}
use go_oracledb.Base.Runes.{Runes}
use go_oracledb.Base.Int.{ℤ, pos, signed}
use go_oracledb.Base.Outcome.{Outcome, ok, panic, stuck}
use go_oracledb.Naming.Node.{Error, Node}
use go_oracledb.Iterator.Partition.{stable_partition, round_robin}
use go_oracledb.Iterator.Options.{
  Address, Description, ConnectionOption, host_of, build_connect_string,
  build_description_with_address,
}

pub record DescriptionAttempts : Type 0 where
  pub description : Option Description
  pub addresses : List Address
  pub connect_data_node : Node
  pub connect_data_str : Runes
  pub retry_count : ℕ
  pub retry_delay : ℕ
  pub current_cycle : ℕ
  pub current_addr_index : ℕ

pub record ConnectionIterator : Type 0 where
  pub passed : List DescriptionAttempts
  pub left : List DescriptionAttempts
  pub exhausted : Bool

-- What a call finds around it: the random order, the keys in the cache of down hosts, and whether the
-- caller's context is done before a delay is over.
pub record Surroundings : Type 0 where
  pub shuffle : List Address → List Address
  pub is_down : Runes → Bool
  pub cancelled : Bool

-- `IsLoadBalanceEnabled`, of a description that may be nil.
abbrev pub is_load_balanced : Option Description → Bool
is_load_balanced none = false
is_load_balanced (some d) = d.load_balance

-- `isDownHost`.
unfoldable pub is_down_host : Surroundings → Address → Bool
is_down_host s a = s.is_down (host_of a)

-- `reorderAddressesByDownHostStatus`.
unfoldable pub reorder_addresses : Surroundings → List Address → List Address
unfolding stable_partition is_down_host
reorder_addresses s addresses = stable_partition (is_down_host s) addresses

-- `buildOptionFromDesc`, of the address at the index.
unfoldable pub build_option : DescriptionAttempts → Address → ConnectionOption
unfolding build_connect_string build_description_with_address
build_option d a = elim d.description [
  | none ↦ record {
    address = a;
    description = none;
    connect_data_node = none;
    connect_data_str = [];
    connect_string = build_description_with_address a;
  }
  | some desc ↦ record {
    address = a;
    description = some desc;
    connect_data_node = some d.connect_data_node;
    connect_data_str = d.connect_data_str;
    connect_string = build_connect_string a d.connect_data_node;
  }
]

-- The addresses of the cycle after `cycle - 1`.
unfoldable pub next_addresses : Surroundings → DescriptionAttempts → ℕ → List Address
unfolding round_robin reorder_addresses
next_addresses s d cycle = reorder_addresses s (
    if is_load_balanced d.description
    then (if ltb cycle 1 then s.shuffle d.addresses else round_robin d.addresses)
    else d.addresses)

-- The start of a new cycle.
unfoldable pub start_cycle : Surroundings → DescriptionAttempts → DescriptionAttempts
unfolding next_addresses
start_cycle s d = record d {
  current_cycle = d.current_cycle + 1;
  current_addr_index = 0;
  addresses = next_addresses s d (d.current_cycle + 1);
}

-- The loop of `Next`, with fuel.
unfoldable pub next_loop :
    ℕ
    → Surroundings
    → List DescriptionAttempts
    → List DescriptionAttempts
    → Outcome Error (Option ConnectionOption × ConnectionIterator)
unfolding start_cycle build_option
next_loop zero s passed left = stuck
next_loop (suc fuel) s passed [] =
    ok (none, record { passed = passed; left = []; exhausted = true })
next_loop (suc fuel) s passed (d ∷ rest) =
    let cycle = next_loop fuel s passed (start_cycle s d ∷ rest) in
    let pass = next_loop fuel s (passed ++ (d ∷ [])) rest in
    if ltb d.current_addr_index (length d.addresses)
    then elim (get_elem? d.addresses d.current_addr_index) [
      | none ↦ panic
      | some a ↦ ok (
        some (build_option d a),
        record {
          passed = passed;
          left = record d { current_addr_index = d.current_addr_index + 1 } ∷ rest;
          exhausted = false;
        },
      )
    ]
    else if ltb d.current_cycle d.retry_count
    then (if ltb 0 d.retry_delay && s.cancelled
        then ok (none, record { passed = passed; left = d ∷ rest; exhausted = true })
        else cycle)
    else pass

-- The rounds that the loop can take: each description has a round for each cycle left and one to pass it.
unfoldable pub rounds : List DescriptionAttempts → ℕ
rounds [] = 0
rounds (d ∷ rest) = suc (d.retry_count - d.current_cycle) + rounds rest

-- `Next`.
unfoldable pub next :
    Surroundings → ConnectionIterator → Outcome Error (Option ConnectionOption × ConnectionIterator)
unfolding next_loop rounds
next s it =
    if it.exhausted then ok (none, it) else next_loop (suc (rounds it.left)) s it.passed it.left

-- The descriptions behind the current one, in the loop of `HasNext`.
unfoldable pub any_addresses : List DescriptionAttempts → Bool
any_addresses [] = false
any_addresses (d ∷ rest) =
    let others = any_addresses rest in if ltb 0 (length d.addresses) then true else others

unfoldable pub has_more : List DescriptionAttempts → Bool
unfolding any_addresses
has_more [] = false
has_more (d ∷ rest) =
    if ltb d.current_addr_index (length d.addresses)
    then true
    else if ltb d.current_cycle d.retry_count
    then true
    else any_addresses rest

-- `HasNext`.
unfoldable pub has_next : ConnectionIterator → Bool × ConnectionIterator
unfolding has_more
has_next it =
    if it.exhausted
    then (false, it)
    else if has_more it.left
    then (true, it)
    else (false, record it { exhausted = true })

-- Go's `int`, as patterns of 64 bits.
abbrev pub add_int : ℕ → ℕ → ℕ
add_int a b = (a + b) % 2 ^ 64

abbrev pub sub_int : ℕ → ℕ → ℕ
sub_int a b = (a + (2 ^ 64 - b % 2 ^ 64)) % 2 ^ 64

abbrev pub mul_int : ℕ → ℕ → ℕ
mul_int a b = a * b % 2 ^ 64

-- The loop of `Total`, and of `Remaining` behind the current description, from a count on.
unfoldable pub total_of : ℕ → List DescriptionAttempts → ℕ
total_of count [] = count
total_of count (d ∷ rest) =
    total_of (add_int count (mul_int (length d.addresses) (add_int d.retry_count 1))) rest

-- `Total`.
unfoldable pub total : ConnectionIterator → ℤ
unfolding total_of
total it = signed 64 (total_of 0 (it.passed ++ it.left))

-- The loop of `Remaining`.
unfoldable pub remaining_of : List DescriptionAttempts → ℕ
unfolding total_of
remaining_of [] = 0
remaining_of (d ∷ rest) =
    let count = add_int 0 (sub_int (length d.addresses) d.current_addr_index) in
    total_of (add_int count (mul_int (length d.addresses) (sub_int d.retry_count d.current_cycle)))
      rest

-- `Remaining`.
unfoldable pub remaining : ConnectionIterator → ℤ
unfolding remaining_of
remaining it = if it.exhausted then pos 0 else signed 64 (remaining_of it.left)

-- `reorderDescriptionsByDownHostStatus`.
unfoldable pub all_down : Surroundings → List Address → Bool
unfolding is_down_host
all_down s [] = true
all_down s (a ∷ rest) = let others = all_down s rest in if is_down_host s a then others else false

unfoldable pub is_down_description : Surroundings → DescriptionAttempts → Bool
unfolding all_down
is_down_description s d = if ltb 0 (length d.addresses) then all_down s d.addresses else false

unfoldable pub reorder_descriptions :
    Surroundings → List DescriptionAttempts → List DescriptionAttempts
unfolding stable_partition is_down_description
reorder_descriptions s attempts = stable_partition (is_down_description s) attempts

-- `Reset`.
unfoldable pub reset_attempts : Surroundings → DescriptionAttempts → DescriptionAttempts
unfolding reorder_addresses
reset_attempts s d = record d {
  current_cycle = 0;
  current_addr_index = 0;
  addresses =
      reorder_addresses s
        (if is_load_balanced d.description then s.shuffle d.addresses else d.addresses);
}

unfoldable pub reset : Surroundings → ConnectionIterator → ConnectionIterator
unfolding reset_attempts reorder_descriptions
reset s it = record {
  passed = [];
  left = reorder_descriptions s (map (reset_attempts s) (it.passed ++ it.left));
  exhausted = false;
}
