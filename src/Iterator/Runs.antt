-- ===== src/Iterator/Runs.antt =====
-- Runs of the `ConnectionIterator` of internal/driver/network/naming/iterator.go on small inputs.
use go_oracledb.Base.{
  ◌-◌, ◌^◌, ◌%◌, ◌≡◌, refl, true, false, none, some, List, [], ◌∷◌, map, length, ltb, arith,
}
use go_oracledb.Base.Runes.{Runes, runes_eq}
use go_oracledb.Base.Int.{pos, signed}
use go_oracledb.Base.Outcome.{Outcome, ok}
use go_oracledb.Naming.Node.{Error, Node, node, nil, cons, to_string}
use go_oracledb.Iterator.Partition.{round_robin, round_robin-Perm}
use go_oracledb.Iterator.Options.{Address, ConnectionOption, Description, tcp, codes}
use go_oracledb.Iterator.Attempts.{
  DescriptionAttempts, ConnectionIterator, Surroundings, has_next, next, remaining, reset, total,
}
use go_oracledb.Iterator.Pending.{IsValid, pending, pendings}
use go_oracledb.Iterator.Drain.{Drains, drain, drain-pending}
use go_oracledb.Iterator.Counts.{remaining-pending}
use go_oracledb.Iterator.Again.{reset-total}
use go_oracledb.Iterator.Build.{ConnectionContext, Resolver, new_connection_iterator}
use go_oracledb.Iterator.Fresh.{new_connection_iterator-IsValid}
use native.Mathlib.Decide.{ℕ_discrete}
use mathlib.Core.List.Perm

abbrev first_ip : Runes
first_ip = codes "10.0.0.1"

abbrev second_ip : Runes
second_ip = codes "10.0.0.2"

program : Unit {0}
unfolding new_connection_iterator drain next round_robin to_string ℕ_discrete runes_eq
program = tt

abbrev host_address : Runes → Address
host_address ip = record {
  protocol = tcp;
  host = codes "db";
  port = 1521;
  https_proxy = [];
  https_proxy_port = 0;
  origin_host = [];
  resolved_ip = ip;
}

abbrev balanced : Description
balanced = record {
  load_balance = true;
  failover = true;
  retry_count = 1;
  retry_delay = 3;
  address_lists = [];
  addresses = host_address [] ∷ [];
}

abbrev service : Node
service = node (codes "CONNECT_DATA") [] (cons (node (codes "SERVICE_NAME") (codes "s") nil) nil)

abbrev descriptor : Node
descriptor = node (codes "DESCRIPTION") [] (cons service nil)

-- No host is down, and no context ends.
abbrev calm : Surroundings
calm = record { shuffle = round_robin; is_down = λ ip. false; cancelled = false }

-- "db" has two addresses.
abbrev two_addresses : Resolver
two_addresses = record {
  is_ip = λ host. false;
  lookup_ip_addr = λ host. some (first_ip ∷ second_ip ∷ []);
  expired = λ call. false;
  shuffle_indices = λ is. is;
}

abbrev context : ConnectionContext
context = record { description_list = none; description = some balanced; addresses = [] }

abbrev fresh_attempts : DescriptionAttempts
fresh_attempts = record {
  description = some balanced;
  addresses = host_address second_ip ∷ host_address first_ip ∷ [];
  connect_data_node = service;
  connect_data_str = to_string service;
  retry_count = 1;
  retry_delay = 3;
  current_cycle = 0;
  current_addr_index = 0;
}

abbrev fresh : ConnectionIterator
fresh = record { passed = []; left = fresh_attempts ∷ []; exhausted = false }

fresh_run : new_connection_iterator (λ c. c) calm two_addresses (some descriptor) context ≡ ok fresh
unfolding program
fresh_run = refl

abbrev fresh-IsValid : IsValid fresh
fresh-IsValid = (
  record { some_addresses = omega arith; cycle_bound = omega arith; index_bound = omega arith },
  tt,
)

-- The addresses of the options of a run.
abbrev tried : Outcome Error (List ConnectionOption × ConnectionIterator) → List Runes
tried (ok (os, it)) = map (λ (o : ConnectionOption). o.address.resolved_ip) os
tried _ = []

-- The second cycle starts with the other address.
drain_run :
    tried (drain (calm ∷ calm ∷ calm ∷ calm ∷ calm ∷ []) fresh)
    ≡ second_ip ∷ first_ip ∷ first_ip ∷ second_ip ∷ []
unfolding program
drain_run = refl

drain-pending_example : Drains (calm ∷ calm ∷ calm ∷ calm ∷ calm ∷ []) fresh
drain-pending_example =
    drain-pending (calm ∷ calm ∷ calm ∷ calm ∷ calm ∷ []) fresh
      (refl, (refl, (refl, (refl, (refl, tt))))) fresh-IsValid refl (unfold pendings in omega arith)

-- Two addresses and the highest retry count, which wrap to no attempts.
abbrev endless : ConnectionIterator
endless = record {
  passed = [];
  left = record fresh_attempts { retry_count = 2 ^ 63 - 1 } ∷ [];
  exhausted = false;
}

endless_run : (remaining endless ≡ pos 0) × ((has_next endless).0 ≡ true)
unfolding remaining has_next
endless_run = (refl, refl)

remaining-pending_example :
    (remaining fresh ≡ signed 64 (length (pending fresh) % 2 ^ 64))
    × ((has_next fresh).0 ≡ ltb 0 (length (pending fresh)))
remaining-pending_example = remaining-pending fresh fresh-IsValid

reset-total_example :
    IsValid (reset calm fresh)
    × (total (reset calm fresh) ≡ total fresh)
    × (remaining (reset calm fresh) ≡ total fresh)
reset-total_example = reset-total calm fresh round_robin-Perm (omega arith, tt)

new_connection_iterator-IsValid_example :
    (it : ConnectionIterator) × (new_connection_iterator
        (λ c. c)
        calm
        two_addresses
        (some descriptor)
        context
      ≡ ok it)
    × IsValid it
    × (it.exhausted ≡ false)
    × (remaining it ≡ total it)
new_connection_iterator-IsValid_example =
    new_connection_iterator-IsValid (λ c. c) calm two_addresses (some descriptor) context
      round_robin-Perm (λ is. Perm.refl is)

-- A context that ends in a delay ends the iteration.
cancelled_run :
    next
      (record calm { cancelled = true })
      (record fresh { left = record fresh_attempts { current_addr_index = 2 } ∷ [] })
    ≡ ok (
      none,
      record {
        passed = [];
        left = record fresh_attempts { current_addr_index = 2 } ∷ [];
        exhausted = true;
      },
    )
unfolding program
cancelled_run = refl
