-- ===== src/Vm/DataKeeps.antt =====
-- The instructions of internal/vm/vm.go that compute on values keep the machine's account.
use howlframe.Vm.Moves.{moves}
use howlframe.Capability.Grants.{Grants}
use howlframe.Vm.Keeps.{Keeps-if, Keeps->>, Keeps, Keeps-pure, Keeps-stop}
use howlframe.Vm.Value.{bytes, Val, string, Host, Config}
use howlframe.Vm.Data.{
  make_slice, exec_stderr, exec_print, exec_cli_args_get, exec_cli_args, exec_secure_equal,
  equal_texts, exec_escape, escape_text, exec_encode_json, exec_is_nil, exec_list_len,
  exec_list_get, get_element, index_of, exec_append, append_item, exec_make_list, make_items,
  pop_items, exec_regex_match, match_texts, exec_str_join, join_items, texts_of, charge_items, lift,
  exec_binop, exec_convert, exec_str_split, split_texts,
}
use howlframe.Vm.Binop.{Computed}
use howlframe.Common.Result.{ok, err}
use howlframe.Common.{Bool-cases, inr, inl, ℤ, List, negsuc, pos, suc, zero, [], String, ℕ}
use howlframe.Opcode.{Opcode}
use howlframe.Vm.Monad.{lost}

module _ {config : Config} {grants : Grants} {fuel : ℕ} where
  pub Keeps-lift : {A : Type 0} (r : Computed A) → Keeps config grants fuel (lift r)
  unfolding lift
  Keeps-lift (ok a) = Keeps-pure a
  Keeps-lift (err e) = Keeps-stop _ tt

  pub Keeps-exec_binop :
      (host : Host) (t : String) (op : Opcode)
      → Keeps config grants fuel (exec_binop host config t op)
  unfolding exec_binop
  Keeps-exec_binop host t op = search (moves, Keeps-lift)

  pub Keeps-exec_convert :
      (host : Host) (t : String) (op : Opcode)
      → Keeps config grants fuel (exec_convert host config t op)
  unfolding exec_convert
  Keeps-exec_convert host t op = search (moves, Keeps-lift)

  Keeps-split_texts :
      (host : Host) (v w : Val) (op : Opcode)
      → Keeps config grants fuel (split_texts host config v w op)
  unfolding split_texts
  Keeps-split_texts host (string t) (string u) op = search (moves)
  Keeps-split_texts host _ _ op = search (moves)

  pub Keeps-exec_str_split :
      (host : Host) (op : Opcode) → Keeps config grants fuel (exec_str_split host config op)
  unfolding exec_str_split
  Keeps-exec_str_split host op = search (moves, Keeps-split_texts)

  Keeps-charge_items :
      (host : Host) (v : Val) (op : Opcode)
      → Keeps config grants fuel (charge_items host config v op)
  unfolding charge_items
  Keeps-charge_items host (bytes bs) op = search (moves)
  Keeps-charge_items host _ op = search (moves)

  Keeps-texts_of : (host : Host) (vs : List Val) → Keeps config grants fuel (texts_of host vs)
  unfolding texts_of
  Keeps-texts_of host vs = search (moves)

  Keeps-join_items :
      (host : Host) (v w : Val) (op : Opcode)
      → Keeps config grants fuel (join_items host config v w op)
  unfolding join_items
  Keeps-join_items host v (string t) op = search (moves, Keeps-texts_of)
  Keeps-join_items host v _ op = search (moves)

  pub Keeps-exec_str_join :
      (host : Host) (op : Opcode) → Keeps config grants fuel (exec_str_join host config op)
  unfolding exec_str_join
  Keeps-exec_str_join host op = search (moves, Keeps-charge_items, Keeps-join_items)

  Keeps-match_texts :
      (host : Host) (v w : Val) (op : Opcode)
      → Keeps config grants fuel (match_texts host config v w op)
  unfolding match_texts
  Keeps-match_texts host (string t) (string u) op = search (moves)
  Keeps-match_texts host _ _ op = search (moves)

  pub Keeps-exec_regex_match :
      (host : Host) (op : Opcode) → Keeps config grants fuel (exec_regex_match host config op)
  unfolding exec_regex_match
  Keeps-exec_regex_match host op = search (moves, Keeps-match_texts)

  Keeps-pop_items :
      (host : Host) (n : ℕ) (op : Opcode) (vs : List Val)
      → Keeps config grants fuel (pop_items host config n op vs)
  unfolding pop_items
  Keeps-pop_items host zero op vs = search (moves)
  Keeps-pop_items host (suc n) op vs = search (moves, Keeps-pop_items host n)

  pub Keeps-make_slice : (host : Host) (n : ℤ) → Keeps config grants fuel (make_slice host config n)
  unfolding make_slice
  Keeps-make_slice host (negsuc n) = Keeps-stop _ tt
  Keeps-make_slice host (pos n) =
      Keeps-if (config.outside.slice_fits n)
        (elim (Bool-cases (config.outside.memory_suffices n)) [
          | inl e ↦ rw e (Keeps-pure tt)
          | inr e ↦ rw e (Keeps-stop lost λ back. let f = back.memory_suffices_eq n in cc (e, f))
        ])
        (Keeps-stop _ tt)

  Keeps-make_items :
      (host : Host) (n : ℤ) (op : Opcode) → Keeps config grants fuel (make_items host config n op)
  unfolding make_items
  Keeps-make_items host (pos n) op =
      Keeps->> (Keeps-make_slice host (pos n)) (Keeps-pop_items host n op [])
  Keeps-make_items host (negsuc n) op = Keeps-stop _ tt

  pub Keeps-exec_make_list :
      (host : Host) (n : ℤ) (op : Opcode)
      → Keeps config grants fuel (exec_make_list host config n op)
  unfolding exec_make_list
  Keeps-exec_make_list host n op = search (moves, Keeps-make_items)

  Keeps-append_item :
      (host : Host) (k : String) (v w : Val) (op : Opcode)
      → Keeps config grants fuel (append_item host config k v w op)
  unfolding append_item
  Keeps-append_item host k v w op = search (moves)

  pub Keeps-exec_append :
      (host : Host) (k : String) (op : Opcode)
      → Keeps config grants fuel (exec_append host config k op)
  unfolding exec_append
  Keeps-exec_append host k op = search (moves, Keeps-append_item)

  Keeps-index_of : (host : Host) (v : Val) → Keeps config grants fuel (index_of host config v)
  unfolding index_of
  Keeps-index_of host v = search (moves)

  Keeps-get_element :
      (host : Host) (k : String) (i : ℤ) (op : Opcode)
      → Keeps config grants fuel (get_element host config k i op)
  unfolding get_element
  Keeps-get_element host k i op = search (moves)

  pub Keeps-exec_list_get :
      (host : Host) (k : String) (op : Opcode)
      → Keeps config grants fuel (exec_list_get host config k op)
  unfolding exec_list_get
  Keeps-exec_list_get host k op = search (moves, Keeps-index_of, Keeps-get_element)

  pub Keeps-exec_list_len :
      (host : Host) (op : Opcode) → Keeps config grants fuel (exec_list_len host config op)
  unfolding exec_list_len
  Keeps-exec_list_len host op = search (moves)

  pub Keeps-exec_is_nil :
      (host : Host) (op : Opcode) → Keeps config grants fuel (exec_is_nil host config op)
  unfolding exec_is_nil
  Keeps-exec_is_nil host op = search (moves)

  pub Keeps-exec_encode_json :
      (host : Host) (op : Opcode) → Keeps config grants fuel (exec_encode_json host config op)
  unfolding exec_encode_json
  Keeps-exec_encode_json host op = search (moves)

  Keeps-escape_text :
      (host : Host) (k : String) (v : Val) (op : Opcode)
      → Keeps config grants fuel (escape_text host config k v op)
  unfolding escape_text
  Keeps-escape_text host k (string t) op = search (moves)
  Keeps-escape_text host k _ op = search (moves)

  pub Keeps-exec_escape :
      (host : Host) (k : String) (op : Opcode)
      → Keeps config grants fuel (exec_escape host config k op)
  unfolding exec_escape
  Keeps-exec_escape host k op = search (moves, Keeps-escape_text)

  Keeps-equal_texts :
      (host : Host) (v w : Val) (op : Opcode)
      → Keeps config grants fuel (equal_texts host config v w op)
  unfolding equal_texts
  Keeps-equal_texts host (string t) (string u) op = search (moves)
  Keeps-equal_texts host _ _ op = search (moves)

  pub Keeps-exec_secure_equal :
      (host : Host) (op : Opcode) → Keeps config grants fuel (exec_secure_equal host config op)
  unfolding exec_secure_equal
  Keeps-exec_secure_equal host op = search (moves, Keeps-equal_texts)

  pub Keeps-exec_cli_args : (host : Host) → Keeps config grants fuel (exec_cli_args host config)
  unfolding exec_cli_args
  Keeps-exec_cli_args host = search (moves)

  pub Keeps-exec_cli_args_get :
      (host : Host) (op : Opcode) → Keeps config grants fuel (exec_cli_args_get host config op)
  unfolding exec_cli_args_get
  Keeps-exec_cli_args_get host op = search (moves, Keeps-index_of)

  pub Keeps-exec_print :
      (host : Host) (n : ℤ) (op : Opcode) → Keeps config grants fuel (exec_print host config n op)
  unfolding exec_print
  Keeps-exec_print host n op = search (moves, Keeps-texts_of)

  pub Keeps-exec_stderr :
      (host : Host) (op : Opcode) → Keeps config grants fuel (exec_stderr host config op)
  unfolding exec_stderr
  Keeps-exec_stderr host op = search (moves, Keeps-texts_of)
