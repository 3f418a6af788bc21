-- ===== src/LuaTransformer/Arguments.antt =====
-- The method and the arguments of a call, against the stack.
use cpe_acs_connector_tr.Base.{ℕ, ◌+◌, true, false, List, [], ◌∷◌, ◌≡◌, refl, Bytes, codes}
use cpe_acs_connector_tr.Types.{ParameterValue}
use cpe_acs_connector_tr.Lua.{Lua, Meaning, Manual}
use cpe_acs_connector_tr.LuaTransformer.{LuaTransformer, push_function, missing}
use cpe_acs_connector_tr.LuaTransformer.Methods.{push_paths, push_value, push_values}
use cpe_acs_connector_tr.LuaTransformer.Contract.{with_paths, with_row, with_values}

module _ {L H V : Type 0} (lua : Lua L) (m : Meaning H V) (At : L → H → List V → Type 0)
    (manual : Manual L H V lua m At) where
  pub push_paths-At :
      (i : ℕ) (paths : List Bytes) (l : L) (h : H) (t : V) (s : List V)
      → At l h (t ∷ s)
      → At (push_paths lua i paths l) (with_paths m h t i paths) (t ∷ s)
  unfolding push_paths with_paths
  push_paths-At i [] l h t s at = at
  push_paths-At i (path ∷ paths) l h t s at =
      let pushed = manual.push_string l h (t ∷ s) path at in
      push_paths-At (i + 1) paths _ _ t s (manual.raw_set_i _ h (m.string path) t s i pushed)

  push_value-At :
      (v : ParameterValue) (l : L) (h : H) (s : List V)
      → At l h s
      → At
          (push_value lua v l)
          (with_row m (m.new_table h).1 (m.new_table h).0 v)
          ((m.new_table h).0 ∷ s)
  unfolding push_value
  push_value-At v l h s at =
      let (row, h0) = m.new_table h in
      let at0 = manual.create_table l h s at in
      let name = manual.push_string _ h0 (row ∷ s) v.name at0 in
      let at1 = manual.set_field _ h0 (m.string v.name) row s (codes "name") name in
      let value = manual.push_string _ _ (row ∷ s) v.value at1 in
      let at2 = manual.set_field _ _ (m.string v.value) row s (codes "value") value in
      let type = manual.push_string _ _ (row ∷ s) v.type at2 in
      manual.set_field _ _ (m.string v.type) row s (codes "type") type

  pub push_values-At :
      (i : ℕ) (values : List ParameterValue) (l : L) (h : H) (t : V) (s : List V)
      → At l h (t ∷ s)
      → At (push_values lua i values l) (with_values m h t i values) (t ∷ s)
  unfolding push_values with_values
  push_values-At i [] l h t s at = at
  push_values-At i (v ∷ values) l h t s at =
      let pushed = push_value-At v l h (t ∷ s) at in
      push_values-At (i + 1) values _ _ t s (manual.raw_set_i _ _ (m.new_table h).0 t s i pushed)

  -- The engine's method is on top of the stack.
  pub push_function-found :
      (t : LuaTransformer L) (name : Bytes) (h : H)
      → t.ready ≡ true
      → At t.state h []
      → m.function_value (m.field h (m.engine h) name) ≡ true
      → (l : L) × (push_function lua t name ≡ (true, record t { state = l }))
        × At l h (m.field h (m.engine h) name ∷ [])
  unfolding push_function
  push_function-found t name h ready at is_method =
      let at1 = manual.push_engine t.state h [] at in
      let at2 = manual.get_field _ h (m.engine h) [] name at1 in
      let at3 = manual.remove_second _ h (m.field h (m.engine h) name) (m.engine h) [] at2 in
      let same = manual.is_function _ h (m.field h (m.engine h) name) [] at3 in
      (_, rw (ready, same, is_method) refl, at3)

  -- There is no such method.
  pub push_function-missing :
      (t : LuaTransformer L) (name : Bytes) (h : H)
      → t.ready ≡ true
      → At t.state h []
      → m.function_value (m.field h (m.engine h) name) ≡ false
      → (l : L) × (push_function lua t name
          ≡ (false, record t { state = l; last_error = missing name }))
        × At l h []
  unfolding push_function
  push_function-missing t name h ready at no_method =
      let at1 = manual.push_engine t.state h [] at in
      let at2 = manual.get_field _ h (m.engine h) [] name at1 in
      let at3 = manual.remove_second _ h (m.field h (m.engine h) name) (m.engine h) [] at2 in
      let same = manual.is_function _ h (m.field h (m.engine h) name) [] at3 in
      (_, rw (ready, same, no_method) refl, manual.pop_one _ h _ [] at3)
