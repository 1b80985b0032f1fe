-- ===== src/Naming/Runs.antt =====
-- Runs of the descriptor parser (internal/driver/network/naming/nv.go), and its theorems at concrete
-- inputs.
use go_oracledb.Base.{
  Bool, true, not, ◌==◌, ◌≤◌, length, ℕ, ◌-◌, ◌≡◌, ◌↔◌, ◌≢◌, refl, ◌&&◌, [], ◌∷◌, leb,
  if◌then◌else◌, map, arith, All,
}
use go_oracledb.Base.Outcome.{ok, err}
use go_oracledb.Base.Runes.{Runes, is_space, trim_right, runes_eq}
use go_oracledb.Naming.Node.{
  Node, node, nil, cons, append_node, node_name, to_strings, parse_value, parse_values,
  parse_position, unexpected_closing_parenthesis, parse_bounds, parse_path_segment,
}
use go_oracledb.Naming.Lexer.{tokenize}
use go_oracledb.Naming.Trim.{in_name, in_value}
use go_oracledb.Naming.Tokens.{IsNode}
use go_oracledb.Naming.Parser.{parse, get_node, get_value}
use go_oracledb.Naming.RoundTrip.{upper, parse-to_strings}
use go_oracledb.Naming.Paths.{Leads, join, get_node-Leads}
use native.Mathlib.Decide.{ℕ_discrete}
use Prim.Native.String.{String}
use Prim.Native.Char.{code}

program : Unit {0}
unfolding parse get_node get_value tokenize append_node runes_eq ℕ_discrete
program = tt

abbrev to_upper : ℕ → ℕ
to_upper c = if leb b'a' c && leb c b'z' then c - 32 else c

abbrev codes : String → Runes
codes String.[] = []
codes (String.◌∷◌ c s) = code c ∷ codes s

abbrev leaf : String → String → Node
leaf name value = node (codes name) (codes value) nil

-- `(Address=(Host=db 1)(Port=1521))`.
abbrev address : Node
address = node (codes "Address") [] (cons (leaf "Host" "db 1") (cons (leaf "Port" "1521") nil))

abbrev address_upper : Node
address_upper =
    node (codes "ADDRESS") [] (cons (leaf "HOST" "db 1") (cons (leaf "PORT" "1521") nil))

parsed : parse to_upper (codes " (address= (host=db 1) (PORT=\"1521\"))") ≡ ok address_upper
unfolding program
parsed = refl

-- White space before `=` ends the name, and `=` starts a token of its own.
apart : parse to_upper (codes "(HOST = a)") ≡ err (parse_value (codes "= a"))
unfolding program
apart = refl

open_end : parse to_upper (codes "(A=(B=1)") ≡ err (parse_bounds 1 0)
unfolding program
open_end = refl

closing : parse to_upper (codes "(A=1))") ≡ err (unexpected_closing_parenthesis 3)
unfolding program
closing = refl

alone : parse to_upper (codes "(") ≡ err (parse_position 0)
unfolding program
alone = refl

-- A rune of two bytes at the end is not flushed with what is before it.
accent : tokenize (b'a' ∷ 233 ∷ []) ≡ []
unfolding program
accent = refl

port : get_value to_upper address_upper (codes "Address/port") ≡ ok (codes "1521")
unfolding program
port = refl

missing_child :
    get_value to_upper address_upper (codes "address/x")
    ≡ err (parse_path_segment (codes "X") (codes "address/x") 1)
unfolding program
missing_child = refl

other_root :
    get_value to_upper address_upper (codes "host")
    ≡ err (parse_values (codes "HOST") (codes "ADDRESS"))
unfolding program
other_root = refl

abbrev all : (ℕ → Bool) → Runes → Bool
all test [] = true
all test (c ∷ r) = test c && all test r

all_lem : (test : ℕ → Bool) (r : Runes) → all test r ≡ true → All (λ c. test c ≡ true) r
all_lem test [] h = tt
all_lem test (c ∷ r) h = (ground arith, all_lem test r (ground arith))

no_slash : (r : Runes) → all (λ c. not (c == b'/')) r ≡ true → All (λ c. c ≢ b'/') r
no_slash [] h = tt
no_slash (c ∷ r) h = (λ e. ground arith, no_slash r (ground arith))

leaf-IsNode :
    (name value : String)
    → 1 ≤ length (codes name)
    → all in_name (codes name) ≡ true
    → all in_value (codes value) ≡ true
    → trim_right (codes value) ≡ codes value
    → IsNode (leaf name value)
unfolding IsNode
leaf-IsNode name value positive h h' same =
    ((positive, all_lem in_name (codes name) h), (same, all_lem in_value (codes value) h'), tt)

address-IsNode : IsNode address
unfolding IsNode in_name trim_right is_space
address-IsNode = (
  (omega arith, all_lem in_name (codes "Address") refl),
  (refl, tt),
  (
    leaf-IsNode "Host" "db 1" (omega arith) refl refl refl,
    (leaf-IsNode "Port" "1521" (omega arith) refl refl refl, tt),
  ),
)

parse-to_strings_example :
    parse to_upper (to_strings (cons address (cons address nil))) ≡ ok (upper to_upper address)
unfolding IsNode
parse-to_strings_example =
    parse-to_strings to_upper address (cons address nil) address-IsNode (address-IsNode, tt)

get_node-Leads_example :
    (get_node to_upper address_upper (join (codes "address") (codes "port" ∷ []))
      ≡ ok (leaf "PORT" "1521"))
    ↔ ((map to_upper (codes "address") ≡ node_name address_upper)
        × Leads (map (map to_upper) (codes "port" ∷ [])) address_upper (leaf "PORT" "1521"))
get_node-Leads_example =
    get_node-Leads to_upper address_upper (leaf "PORT" "1521") (codes "address") (codes "port" ∷ [])
      (omega arith) (no_slash (codes "address") refl) (no_slash (codes "port") refl, tt)
