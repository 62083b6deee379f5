-- ===== src/Vm/MapsKeeps.antt =====
-- The instructions of internal/vm/vm.go on maps keep the machine's account.
use howlframe.Vm.Moves.{moves}
use howlframe.Capability.Grants.{Grants}
use howlframe.Vm.Keeps.{Keeps, Keeps-stop, Keeps-unmoved}
use howlframe.Vm.Value.{Val, dict, Host, Config, Vars}
use howlframe.Vm.Maps.{
  read_map, write_map, new_map, expect_dict, print_value, pop_pairs, exec_make_dict, charge_key,
  exec_map_set, exec_map_delete, map_operand, exec_map_get, exec_map_keys,
}
use howlframe.Common.{ℤ, String, ℕ, negsuc, pos, refl}
use howlframe.Opcode.{Opcode}
use howlframe.Vm.DataKeeps.{Keeps-make_slice}

module _ {config : Config} {grants : Grants} {fuel : ℕ} where
  Keeps-read_map : (a : ℕ) → Keeps config grants fuel (read_map a)
  unfolding read_map
  Keeps-read_map a = search (moves)

  Keeps-write_map : (a : ℕ) (m : Vars) → Keeps config grants fuel (write_map a m)
  unfolding write_map
  Keeps-write_map a m = Keeps-unmoved (λ s. refl) λ s. tt

  Keeps-new_map : (m : Vars) → Keeps config grants fuel (new_map m)
  unfolding new_map
  Keeps-new_map m = Keeps-unmoved (λ s. refl) λ s. tt

  Keeps-expect_dict :
      (t : String) (v : Val) (op : Opcode) → Keeps config grants fuel (expect_dict t v op)
  unfolding expect_dict
  Keeps-expect_dict t (dict a) op = search (moves)
  Keeps-expect_dict t _ op = search (moves)

  Keeps-print_value : (host : Host) (v : Val) → Keeps config grants fuel (print_value host config v)
  unfolding print_value
  Keeps-print_value host v = search (moves)

  ruleset map_rules =
      (moves, Keeps-read_map, Keeps-write_map, Keeps-new_map, Keeps-expect_dict, Keeps-print_value)

  Keeps-pop_pairs :
      (host : Host) (n : ℤ) (op : Opcode) → Keeps config grants fuel (pop_pairs host config n op)
  unfolding pop_pairs
  Keeps-pop_pairs host (pos n) op = search (moves, Keeps-make_slice)
  Keeps-pop_pairs host (negsuc n) op = Keeps-stop _ tt

  pub Keeps-exec_make_dict :
      (host : Host) (n : ℤ) (op : Opcode)
      → Keeps config grants fuel (exec_make_dict host config n op)
  unfolding exec_make_dict
  Keeps-exec_make_dict host n op = search (map_rules, Keeps-pop_pairs) depth 12

  Keeps-charge_key :
      (host : Host) (k : String) (m : Vars) (op : Opcode)
      → Keeps config grants fuel (charge_key host config k m op)
  unfolding charge_key
  Keeps-charge_key host k m op = search (moves)

  pub Keeps-exec_map_set :
      (host : Host) (k : String) (op : Opcode)
      → Keeps config grants fuel (exec_map_set host config k op)
  unfolding exec_map_set
  Keeps-exec_map_set host k op = search (map_rules, Keeps-charge_key) depth 12

  pub Keeps-exec_map_delete :
      (host : Host) (k : String) (op : Opcode)
      → Keeps config grants fuel (exec_map_delete host config k op)
  unfolding exec_map_delete
  Keeps-exec_map_delete host k op = search (map_rules) depth 12

  Keeps-map_operand :
      (host : Host) (k : String) (op : Opcode)
      → Keeps config grants fuel (map_operand host config k op)
  unfolding map_operand
  Keeps-map_operand host k op = search (moves)

  pub Keeps-exec_map_get :
      (host : Host) (k : String) (op : Opcode)
      → Keeps config grants fuel (exec_map_get host config k op)
  unfolding exec_map_get
  Keeps-exec_map_get host k op = search (map_rules, Keeps-map_operand) depth 12

  pub Keeps-exec_map_keys :
      (host : Host) (op : Opcode) → Keeps config grants fuel (exec_map_keys host config op)
  unfolding exec_map_keys
  Keeps-exec_map_keys host op = search (map_rules) depth 12
