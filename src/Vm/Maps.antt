-- ===== src/Vm/Maps.antt =====
-- The instructions of internal/vm/vm.go on maps, which the values share through the heap.
use howlframe.Common.{
  ℕ, zero, suc, String, none, some, List, [], ◌∷◌, ◌++◌, ℤ, pos, negsuc, map, length, get_elem?,
  str_eq, if◌then◌else◌, lookup, has_key, insert, delete, sort_strings,
}
use Prim.Native.String.{len}
use howlframe.Opcode.{Opcode}
use howlframe.Vm.Value.{Val, nil, string, list, dict, of_list, Vars, type_of, Config, Host}
use howlframe.Vm.Monad.{Vm, done, pure, ◌>>=◌, ◌>>◌, gets, push, pop, pop_many, load_var}
use howlframe.Vm.Integer.{wrap_int64, ◌*ℤ◌}
use howlframe.Vm.Guard.{charge_alloc, charge_slots, charge_texts}
use howlframe.Vm.Data.{type_error, bad_make, make_slice}

-- The map at a place of the heap.
abbrev pub map_at : List Vars → ℕ → Vars
map_at heap a = elim (get_elem? heap a) [ none ↦ [] | some m ↦ m ]

unfoldable pub set_map : List Vars → ℕ → Vars → List Vars
set_map [] a m = []
set_map (x ∷ heap) zero m = m ∷ heap
set_map (x ∷ heap) (suc a) m = x ∷ set_map heap a m

-- The keys of a map.
unfoldable pub keys : Vars → List String
keys [] = []
keys ((k, v) ∷ m) = k ∷ keys m

unfoldable pub read_map : ℕ → Vm Vars
read_map a = gets λ s. map_at s.heap a

unfoldable pub write_map : ℕ → Vars → Vm (Unit {0})
write_map a m s = (done tt, record s { heap = set_map s.heap a m })

-- A new map, at the end of the heap.
unfoldable pub new_map : Vars → Vm Val
new_map m s = (done (dict (length s.heap)), record s { heap = s.heap ++ m ∷ [] })

-- The entries of MAKE_DICT, from keys and values in turn.
unfoldable pub entries : (Val → String) → List Val → Vars → Vars
entries key (k ∷ v ∷ vs) m = entries key vs (insert (key k) v m)
entries key _ m = m

-- What a value is, in an instruction that wants a map.
unfoldable pub expect_dict : String → Val → Opcode → Vm ℕ
expect_dict message (dict a) op = pure a
expect_dict message v op = type_error op message (type_of v ∷ [])

module _ (host : Host) (config : Config) where
  -- `fmt.Sprint(v)`
  unfoldable pub print_value : Val → Vm String
  print_value v = gets λ s. host.sprint s.heap v

  unfoldable pub pop_pairs : ℤ → Opcode → Vm (List Val)
  pop_pairs (pos n) op = make_slice host config (pos n) >> pop_many n op []
  pop_pairs (negsuc n) op = bad_make host config

  -- MAKE_DICT
  unfoldable pub exec_make_dict : ℤ → Opcode → Vm (Unit {0})
  exec_make_dict n op = do
    vs ← pop_pairs (wrap_int64 (n *ℤ pos 2)) op
    m ← gets (λ s. entries (host.sprint s.heap) vs [])
    charge_slots config (pos (length m)) (pos 16) op
    charge_texts config (keys m) op
    d ← new_map m
    push d

  -- What a new key costs.
  unfoldable pub charge_key : String → Vars → Opcode → Vm (Unit {0})
  charge_key key m op =
      if has_key key m
      then pure tt
      else charge_alloc config (pos 16) op >> charge_alloc config (pos (len key)) op

  -- MAP_SET
  unfoldable pub exec_map_set : String → Opcode → Vm (Unit {0})
  exec_map_set name op = do
    v ← pop op
    k ← pop op
    key ← print_value k
    current ← load_var name op
    a ← expect_dict "map_set expected dict, got %T" current op
    m ← read_map a
    charge_key key m op
    write_map a (insert key v m)

  -- MAP_DELETE
  unfoldable pub exec_map_delete : String → Opcode → Vm (Unit {0})
  exec_map_delete name op = do
    k ← pop op
    key ← print_value k
    current ← load_var name op
    a ← expect_dict "map_delete expected dict, got %T" current op
    m ← read_map a
    write_map a (delete key m)

  -- The map that MAP_GET reads: a variable's, or the one on the stack.
  unfoldable pub map_operand : String → Opcode → Vm Val
  map_operand name op = if str_eq name "" then pop op else load_var name op

  -- MAP_GET
  unfoldable pub exec_map_get : String → Opcode → Vm (Unit {0})
  exec_map_get name op = do
    k ← pop op
    key ← print_value k
    current ← map_operand name op
    a ← expect_dict "map_get expected dict, got %T" current op
    m ← read_map a
    push (elim (lookup key m) [ none ↦ nil | some v ↦ v ])

  -- MAP_KEYS
  unfoldable pub exec_map_keys : Opcode → Vm (Unit {0})
  exec_map_keys op = do
    v ← pop op
    a ← expect_dict "map_keys expected dict, got %T" v op
    m ← read_map a
    charge_slots config (pos (length m)) (pos 8) op
    push (list (of_list (map string (sort_strings (keys m)))))
