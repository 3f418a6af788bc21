-- ===== src/LuaTransformer/Updates.antt =====
-- `setParameterValues` against its contract.
use cpe_acs_connector_tr.Base.{
  Bool, true, List, [], ◌∷◌, ◌≡◌, refl, inl, inr, Bool-cases, Bytes, codes,
}
use cpe_acs_connector_tr.Types.{ParameterValue}
use cpe_acs_connector_tr.Lua.{Lua, Meaning, Manual, Outcome, results, raised, returned_ok, left_by}
use cpe_acs_connector_tr.LuaTransformer.{LuaTransformer}
use cpe_acs_connector_tr.LuaTransformer.Methods.{
  read_failure, read_set_result, set_result, set_parameter_values,
}
use cpe_acs_connector_tr.LuaTransformer.Contract.{failure_of, set_from, set_of}
use cpe_acs_connector_tr.LuaTransformer.Fields.{field_string-Reads, pop_lua_error-Reads}
use cpe_acs_connector_tr.LuaTransformer.Arguments.{
  push_values-At, push_function-found, push_function-missing,
}
use cpe_acs_connector_tr.LuaTransformer.Results.{Agrees}

module _ {L H V : Type 0} (lua : Lua L) (m : Meaning H V) (At : L → H → List V → Type 0)
    (manual : Manual L H V lua m At) where
  failure-Reads :
      (l : L) (h : H) (a b : V)
      → At l h (b ∷ a ∷ [])
      → ((read_failure lua l).0 ≡ failure_of m h b) × ((s : List V) × At (read_failure lua l).1 h s)
  unfolding read_failure
  failure-Reads l h a b at =
      let is_table = manual.is_table l h [] b (a ∷ []) at in
      let is_string = manual.is_string l h b (a ∷ []) at in
      let (message, at1) = field_string-Reads lua m At manual (codes "message") l h b (a ∷ []) at in
      let (path, at2) = field_string-Reads lua m At manual (codes "path") _ h b (a ∷ []) at1 in
      let (text, (w, at3)) = manual.to_string l h b (a ∷ []) at in
      elim (Bool-cases (m.table_value b)) [
        | inl e ↦ rw (is_table, e) (cc, (_, at2))
        | inr e ↦ elim (Bool-cases (m.string_value b)) [
          | inl k ↦ rw (is_table, e, is_string, k) (cc, (_, at3))
          | inr k ↦ rw (is_table, e, is_string, k) (refl, (_, at))
        ]
      ]

  set_behind :
      (t : LuaTransformer L) (ok : Bool) (l : L) (outcome : Outcome V) (h : H)
      → t.ready ≡ true
      → ok ≡ returned_ok outcome
      → At l h (left_by outcome [])
      → Agrees lua m At manual (set_result lua t ok l) (set_from m (outcome, h))
  unfolding set_result read_set_result
  set_behind t ok l (results a b) h ready same at =
      let (failure, (s, at')) = failure-Reads l h a b at in
      let truth = manual.to_boolean l h (b ∷ []) a [] at in
      elim (Bool-cases (m.truth a)) [
        | inl e ↦ rw (same, truth, e) (refl, manual.clear _ h (b ∷ a ∷ []) at, ready)
        | inr e ↦ rw (same, truth, e) (cc failure, manual.clear _ h s at', ready)
      ]
  set_behind t ok l (raised e) h ready same at =
      let (error, at') = pop_lua_error-Reads lua m At manual l h e [] at in
      rw same (cc error, manual.clear _ h [] at', ready)

  -- `setParameterValues` succeeds just where the engine's method returns true for a table of the
  -- values and the key. Where the method returns something else, the result carries the error text
  -- and the parameter that failed, as the method names them, or a text of its own in place of an
  -- empty one; where it raises an error, the text of that. The stack is empty again, on every way
  -- out.
  pub set_parameter_values-Agrees :
      (t : LuaTransformer L) (values : List ParameterValue) (parameter_key : Bytes) (h : H)
      → t.ready ≡ true
      → At t.state h []
      → Agrees lua m At manual
          (set_parameter_values lua t values parameter_key)
          (set_of m h values parameter_key)
  unfolding set_parameter_values
  set_parameter_values-Agrees t values parameter_key h ready at =
      let name = codes "setParameterValues" in
      let f = m.field h (m.engine h) name in
      elim (Bool-cases (m.function_value f)) [
        | inl e ↦
            let (l, pushed, at1) = push_function-found lua m At manual t name h ready at e in
            let at2 = manual.create_table l h (f ∷ []) at1 in
            let at3 = push_values-At lua m At manual 1 values _ _ (m.new_table h).0 (f ∷ []) at2 in
            let at4 = manual.push_string _ _ _ parameter_key at3 in
            let (same, at5) =
              manual.call_two _ _ (m.new_table h).0 (m.string parameter_key) f [] at4 in
            rw (pushed, e) (set_behind (record t { state = l }) _ _ _ _ ready same at5)
        | inr e ↦
            let (l, pushed, at1) = push_function-missing lua m At manual t name h ready at e in
            rw (pushed, e) (refl, at1, ready)
      ]
