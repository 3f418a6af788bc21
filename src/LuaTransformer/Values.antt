-- ===== src/LuaTransformer/Values.antt =====
-- `getParameterValues` against its contract.
use cpe_acs_connector_tr.Base.{
  Bool, true, List, [], ◌∷◌, ◌≡◌, refl, inl, inr, Bool-cases, Bytes, codes,
}
use cpe_acs_connector_tr.Lua.{Lua, Meaning, Manual, Outcome, results, raised, returned_ok, left_by}
use cpe_acs_connector_tr.LuaTransformer.{LuaTransformer}
use cpe_acs_connector_tr.LuaTransformer.Methods.{values_result, get_parameter_values}
use cpe_acs_connector_tr.LuaTransformer.Contract.{values_from, values_of}
use cpe_acs_connector_tr.LuaTransformer.Fields.{pop_lua_error-Reads}
use cpe_acs_connector_tr.LuaTransformer.Arguments.{
  push_paths-At, push_function-found, push_function-missing,
}
use cpe_acs_connector_tr.LuaTransformer.Results.{Agrees, read_results-Reads}

module _ {L H V : Type 0} (lua : Lua L) (m : Meaning H V) (At : L → H → List V → Type 0)
    (manual : Manual L H V lua m At) where
  values_behind :
      (t : LuaTransformer L) (paths : List Bytes) (ok : Bool) (l : L) (outcome : Outcome V) (h : H)
      → t.ready ≡ true
      → ok ≡ returned_ok outcome
      → At l h (left_by outcome [])
      → Agrees lua m At manual (values_result lua t paths ok l) (values_from m paths (outcome, h))
  unfolding values_result
  values_behind t paths ok l (results a b) h ready same at =
      let (result, at') = read_results-Reads lua m At manual l h a b [] at in
      rw same (result, at', ready)
  values_behind t paths ok l (raised e) h ready same at =
      let (error, at') = pop_lua_error-Reads lua m At manual l h e [] at in
      rw same (refl, manual.clear _ h [] at', ready)

  -- `getParameterValues` returns the rows and the invalid paths that the engine's method returns
  -- for the table of the paths, and every path as invalid where there is no such method or it
  -- fails; the stack of the Lua state is empty again, on every way out.
  pub get_parameter_values-Agrees :
      (t : LuaTransformer L) (paths : List Bytes) (reveal_secrets : Bool) (h : H)
      → t.ready ≡ true
      → At t.state h []
      → Agrees lua m At manual
          (get_parameter_values lua t paths reveal_secrets)
          (values_of m h paths reveal_secrets)
  unfolding get_parameter_values
  get_parameter_values-Agrees t paths reveal_secrets h ready at =
      let name = codes "getParameterValues" in
      let f = m.field h (m.engine h) name in
      elim (Bool-cases (m.function_value f)) [
        | inl e ↦
            let (l, pushed, at1) = push_function-found lua m At manual t name h ready at e in
            let at2 = manual.create_table l h (f ∷ []) at1 in
            let at3 = push_paths-At lua m At manual 1 paths _ _ (m.new_table h).0 (f ∷ []) at2 in
            let at4 = manual.push_boolean _ _ _ reveal_secrets at3 in
            let (same, at5) =
              manual.call_two _ _ (m.new_table h).0 (m.boolean reveal_secrets) f [] at4 in
            rw (pushed, e) (values_behind (record t { state = l }) paths _ _ _ _ ready same at5)
        | inr e ↦
            let (l, pushed, at1) = push_function-missing lua m At manual t name h ready at e in
            rw (pushed, e) (refl, at1, ready)
      ]
