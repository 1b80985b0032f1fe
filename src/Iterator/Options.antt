-- ===== src/Iterator/Options.antt =====
-- Addresses, descriptions, and the connect strings of internal/driver/network/naming/iterator.go. Of a
-- `Description` (nvctx.go) there are the fields that the iteration reads.
use go_oracledb.Base.{ℕ, Bool, Option, List, [], ◌∷◌, length, ◌==◌, if◌then◌else◌}
use go_oracledb.Base.Runes.{Runes}
use go_oracledb.Naming.Node.{Node, node, nil, cons, append_node, to_string}
use go_oracledb.Number.Decimal.{format_uint}
use Prim.Native.String.{String}
use Prim.Native.Char.{code}

-- The runes of a Go string constant.
abbrev pub codes : String → Runes
codes String.[] = []
codes (String.◌∷◌ c s) = code c ∷ codes s

-- `Protocol` with its `String`.
pub data Protocol : Type 0 where
  tcp tcps : Protocol

unfoldable pub protocol_name : Protocol → Runes
protocol_name tcp = codes "TCP"
protocol_name tcps = codes "TCPS"

pub record Address : Type 0 where
  pub protocol : Protocol
  pub host : Runes
  pub port : ℕ
  pub https_proxy : Runes
  pub https_proxy_port : ℕ
  pub origin_host : Runes
  pub resolved_ip : Runes

pub record AddressList : Type 0 where
  pub addresses : List Address

pub record Description : Type 0 where
  pub load_balance : Bool
  pub failover : Bool
  pub retry_count : ℕ
  pub retry_delay : ℕ
  pub address_lists : List AddressList
  pub addresses : List Address

pub record ConnectionOption : Type 0 where
  pub address : Address
  pub description : Option Description
  pub connect_data_node : Option Node
  pub connect_data_str : Runes
  pub connect_string : Runes

abbrev pub is_empty : Runes → Bool
is_empty s = length s == 0

-- `addr.ResolvedIP`, or `addr.Host` where that is empty.
unfoldable pub host_of : Address → Runes
host_of a = if is_empty a.resolved_ip then a.host else a.resolved_ip

abbrev leaf : Runes → Runes → Node
leaf name value = node name value nil

-- The ADDRESS node of both builders.
unfoldable pub address_node : Address → Node
unfolding host_of protocol_name append_node
address_node a =
    let plain = cons (leaf (codes "PROTOCOL") (protocol_name a.protocol)) (
      cons (leaf (codes "HOST") (host_of a))
        (cons (leaf (codes "PORT") (format_uint a.port)) nil)) in
    let proxied = append_node plain (leaf (codes "HTTPS_PROXY") a.https_proxy) in
    node (codes "ADDRESS") [] (
      if is_empty a.https_proxy
      then plain
      else if a.https_proxy_port == 0
      then proxied
      else append_node proxied (leaf (codes "HTTPS_PROXY_PORT") (format_uint a.https_proxy_port)))

-- `buildConnectString`.
unfoldable pub build_connect_string : Address → Node → Runes
unfolding address_node
build_connect_string a connect_data =
    to_string (node (codes "DESCRIPTION") [] (cons (address_node a) (cons connect_data nil)))

-- `buildDescriptionWithAddress`.
unfoldable pub build_description_with_address : Address → Runes
unfolding address_node
build_description_with_address a =
    to_string (node (codes "DESCRIPTION") [] (cons (address_node a) nil))
