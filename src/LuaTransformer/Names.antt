-- ===== src/LuaTransformer/Names.antt =====
-- `getParameterNames` against its contract.
use cpe_acs_connector_tr.Base.{
  Bool, true, List, [], ◌∷◌, ◌≡◌, refl, inl, inr, Bool-cases, Bytes, codes,
}
use cpe_acs_connector_tr.Lua.{Lua, Meaning, Manual, Outcome, results, raised, returned_ok, left_by}
use cpe_acs_connector_tr.LuaTransformer.{LuaTransformer}
use cpe_acs_connector_tr.LuaTransformer.Methods.{
  read_info, read_names, names_result, get_parameter_names,
}
use cpe_acs_connector_tr.LuaTransformer.Contract.{info_row, names_from, names_of}
use cpe_acs_connector_tr.LuaTransformer.Fields.{
  read_rows-Reads, read_info-Reads, pop_lua_error-Reads,
}
use cpe_acs_connector_tr.LuaTransformer.Arguments.{push_function-found, push_function-missing}
use cpe_acs_connector_tr.LuaTransformer.Results.{Agrees}

module _ {L H V : Type 0} (lua : Lua L) (m : Meaning H V) (At : L → H → List V → Type 0)
    (manual : Manual L H V lua m At) where
  names_behind :
      (t : LuaTransformer L) (ok : Bool) (l : L) (outcome : Outcome V) (h : H)
      → t.ready ≡ true
      → ok ≡ returned_ok outcome
      → At l h (left_by outcome [])
      → Agrees lua m At manual (names_result lua t ok l) (names_from m (outcome, h))
  unfolding names_result read_names
  names_behind t ok l (results a b) h ready same at =
      let is_table = manual.is_table l h (b ∷ []) a [] at in
      let size = manual.raw_len l h (b ∷ []) a [] at in
      let is_string = manual.is_string l h b (a ∷ []) at in
      let (text, (w, at1)) = manual.to_string l h b (a ∷ []) at in
      let (names, at2) =
        read_rows-Reads lua m At manual (read_info lua) (info_row m)
          (read_info-Reads lua m At manual) (m.size h a) 1 l h b a [] at in
      elim (Bool-cases (m.table_value a)) [
        | inl e ↦ rw (same, is_table, e, size) (cc names, manual.clear _ h _ at2, ready)
        | inr e ↦ elim (Bool-cases (m.string_value b)) [
          | inl k ↦ rw (same, is_table, e, is_string, k) (cc text, manual.clear _ h _ at1, ready)
          | inr k ↦ rw (same, is_table, e, is_string, k) (refl, manual.clear _ h _ at, ready)
        ]
      ]
  names_behind t ok l (raised e) h ready same at =
      let (error, at') = pop_lua_error-Reads lua m At manual l h e [] at in
      rw same (cc error, manual.clear _ h [] at', ready)

  -- `getParameterNames` returns the rows that the engine's method returns for the path, or its
  -- error text where it returns no table or fails, or there is no such method; the stack is empty
  -- again, on every way out.
  pub get_parameter_names-Agrees :
      (t : LuaTransformer L) (path : Bytes) (h : H)
      → t.ready ≡ true
      → At t.state h []
      → Agrees lua m At manual (get_parameter_names lua t path) (names_of m h path)
  unfolding get_parameter_names
  get_parameter_names-Agrees t path h ready at =
      let name = codes "getParameterNames" in
      let f = m.field h (m.engine h) name in
      elim (Bool-cases (m.function_value f)) [
        | inl e ↦
            let (l, pushed, at1) = push_function-found lua m At manual t name h ready at e in
            let at2 = manual.push_string _ _ _ path at1 in
            let (same, at3) = manual.call_one _ _ (m.string path) f [] at2 in
            rw (pushed, e) (names_behind (record t { state = l }) _ _ _ _ ready same at3)
        | inr e ↦
            let (l, pushed, at1) = push_function-missing lua m At manual t name h ready at e in
            rw (pushed, e) (refl, at1, ready)
      ]
