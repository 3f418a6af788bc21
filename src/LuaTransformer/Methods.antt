-- ===== src/LuaTransformer/Methods.antt =====
-- The three methods of the transformer, with their loops over the stack
-- (src/transformer/lua_transformer.cpp).
use cpe_acs_connector_tr.Base.{
  ℕ, zero, suc, ◌+◌, Bool, true, false, not, List, [], ◌∷◌, Option, none, some, if◌then◌else◌,
  Bytes, codes, is_empty,
}
use cpe_acs_connector_tr.Types.{ParameterValue, ParameterInfo}
use cpe_acs_connector_tr.Transformer.{SetResult}
use cpe_acs_connector_tr.Lua.{Lua}
use cpe_acs_connector_tr.LuaTransformer.{
  LuaTransformer, field_bool, field_string, pop_lua_error, push_function, text_or,
}

abbrev pub with_text : Option Bytes → List Bytes → List Bytes
with_text none texts = texts
with_text (some t) texts = t ∷ texts

module _ {L : Type 0} (lua : Lua L) where
  -- The loop that fills the table of paths, from the index `i` on.
  unfoldable pub push_paths : ℕ → List Bytes → L → L
  push_paths i [] l = l
  push_paths i (path ∷ paths) l =
      push_paths (i + 1) paths (lua.raw_set_i (lua.push_string l path) i)

  unfoldable pub read_value : L → ParameterValue × L
  unfolding field_string
  read_value l =
      let (name, l1) = field_string lua l (codes "name") in
      let (value, l2) = field_string lua l1 (codes "value") in
      let (type, l3) = field_string lua l2 (codes "type") in
      (record { name = name; value = value; type = type }, l3)

  unfoldable pub read_info : L → ParameterInfo × L
  unfolding field_string field_bool
  read_info l =
      let (name, l1) = field_string lua l (codes "name") in
      let (writable, l2) = field_bool lua l1 (codes "writable") in
      (record { name = name; writable = writable }, l2)

  -- The loop over the rows of the table at the index -2, with the rows left and the index `i`.
  -- A row that is no table is passed over.
  unfoldable pub read_rows : {A : Type 0} → (L → A × L) → ℕ → ℕ → L → List A × L
  read_rows read zero i l = ([], l)
  read_rows read (suc n) i l =
      let l1 = lua.raw_get_i l 2 i in
      let (row, l2) = read l1 in
      let (rows, l3) = read_rows read n (i + 1) (lua.pop l2 1) in
      let others = read_rows read n (i + 1) (lua.pop l1 1) in
      if lua.is_table l1 1 then (row ∷ rows, l3) else others

  -- The loop over the table of texts at the index -1.
  unfoldable pub read_texts : ℕ → ℕ → L → List Bytes × L
  read_texts zero i l = ([], l)
  read_texts (suc n) i l =
      let (text, l1) = lua.to_string (lua.raw_get_i l 1 i) in
      let (texts, l2) = read_texts n (i + 1) (lua.pop l1 1) in (with_text text texts, l2)

  abbrev pub rows_at_second : {A : Type 0} → (L → A × L) → L → List A × L
  rows_at_second read l = if lua.is_table l 2 then read_rows read (lua.raw_len l 2) 1 l else ([], l)

  abbrev pub texts_on_top : L → List Bytes × L
  texts_on_top l = if lua.is_table l 1 then read_texts (lua.raw_len l 1) 1 l else ([], l)

  -- Behind the call.
  unfoldable pub read_results : L → (List ParameterValue × List Bytes) × L
  read_results l =
      let (values, l1) = rows_at_second read_value l in
      let (invalid, l2) = texts_on_top l1 in ((values, invalid), lua.clear l2)

  -- Behind `lua_pcall`.
  unfoldable pub values_result :
      LuaTransformer L
      → List Bytes
      → Bool
      → L
      → (List ParameterValue × List Bytes) × LuaTransformer L
  values_result t paths ok l =
      let (error, l1) = pop_lua_error lua l in
      let (result, l2) = read_results l in
      if not ok
      then (([], paths), record t { state = lua.clear l1; last_error = error })
      else (result, record t { state = l2 })

  unfoldable pub get_parameter_values :
      LuaTransformer L → List Bytes → Bool → (List ParameterValue × List Bytes) × LuaTransformer L
  get_parameter_values t paths reveal_secrets =
      let (pushed, t1) = push_function lua t (codes "getParameterValues") in
      let l = push_paths 1 paths (lua.create_table t1.state) in
      let (ok, l1) = lua.pcall (lua.push_boolean l reveal_secrets) 2 in
      if not pushed then (([], paths), t1) else values_result t1 paths ok l1

  -- One row of the table of values.
  unfoldable pub push_value : ParameterValue → L → L
  push_value v l =
      let l1 = lua.set_field (lua.push_string (lua.create_table l) v.name) (codes "name") in
      let l2 = lua.set_field (lua.push_string l1 v.value) (codes "value") in
      lua.set_field (lua.push_string l2 v.type) (codes "type")

  unfoldable pub push_values : ℕ → List ParameterValue → L → L
  unfolding push_value
  push_values i [] l = l
  push_values i (v ∷ values) l = push_values (i + 1) values (lua.raw_set_i (push_value v l) i)

  -- The error and the failed parameter of a call that returned false.
  unfoldable pub read_failure : L → (Bytes × Bytes) × L
  unfolding field_string
  read_failure l =
      let (message, l1) = field_string lua l (codes "message") in
      let (path, l2) = field_string lua l1 (codes "path") in
      let (text, l3) = lua.to_string l in
      if lua.is_table l 1
      then ((message, path), l2)
      else if lua.is_string l
      then ((text_or text [], []), l3)
      else (([], []), l)

  unfoldable pub read_set_result : L → SetResult × L
  read_set_result l =
      let ((error, path), l1) = read_failure l in
      if lua.to_boolean l 2
      then (record { success = true; error = []; failed_parameter = [] }, lua.clear l)
      else (
        record {
          success = false;
          error = if is_empty error then codes "Transformer transaction failed" else error;
          failed_parameter = path;
        },
        lua.clear l1,
      )

  -- Behind `lua_pcall`.
  unfoldable pub set_result : LuaTransformer L → Bool → L → SetResult × LuaTransformer L
  set_result t ok l =
      let (error, l1) = pop_lua_error lua l in
      let (result, l2) = read_set_result l in
      if not ok
      then (
        record { success = false; error = error; failed_parameter = [] },
        record t { state = lua.clear l1 },
      )
      else (result, record t { state = l2 })

  unfoldable pub set_parameter_values :
      LuaTransformer L → List ParameterValue → Bytes → SetResult × LuaTransformer L
  set_parameter_values t values parameter_key =
      let (pushed, t1) = push_function lua t (codes "setParameterValues") in
      let l = push_values 1 values (lua.create_table t1.state) in
      let (ok, l1) = lua.pcall (lua.push_string l parameter_key) 2 in
      if not pushed
      then (record { success = false; error = t1.last_error; failed_parameter = [] }, t1)
      else set_result t1 ok l1

  unfoldable pub read_names : L → (List ParameterInfo × Bytes) × L
  read_names l =
      let (text, l1) = lua.to_string l in
      let (names, l2) = read_rows read_info (lua.raw_len l 2) 1 l in
      if not (lua.is_table l 2)
      then (
        ([], if lua.is_string l then text_or text [] else codes "unknown parameter path"),
        lua.clear (if lua.is_string l then l1 else l),
      )
      else ((names, []), lua.clear l2)

  -- Behind `lua_pcall`.
  unfoldable pub names_result :
      LuaTransformer L → Bool → L → (List ParameterInfo × Bytes) × LuaTransformer L
  names_result t ok l =
      let (error, l1) = pop_lua_error lua l in
      let (result, l2) = read_names l in
      if not ok
      then (([], error), record t { state = lua.clear l1 })
      else (result, record t { state = l2 })

  unfoldable pub get_parameter_names :
      LuaTransformer L → Bytes → (List ParameterInfo × Bytes) × LuaTransformer L
  get_parameter_names t path =
      let (pushed, t1) = push_function lua t (codes "getParameterNames") in
      let (ok, l) = lua.pcall (lua.push_string t1.state path) 1 in
      if not pushed then (([], t1.last_error), t1) else names_result t1 ok l
