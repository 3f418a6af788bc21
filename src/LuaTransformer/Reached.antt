-- ===== src/LuaTransformer/Reached.antt =====
-- The Lua state over the life of a transformer.
use mathlib.Core.Path.{subst}
use cpe_acs_connector_tr.Base.{
  true, List, [], ◌∷◌, Option, none, some, ◌≡◌, refl, ◌∙◌, sym, inl, inr, Bool-cases, Bool, Bytes,
  codes,
}
use cpe_acs_connector_tr.Types.{ParameterValue}
use cpe_acs_connector_tr.Lua.{Lua, Meaning, Manual, Outcome, results, raised, returned_ok, left_by}
use cpe_acs_connector_tr.LuaTransformer.{
  LuaTransformer, Construction, failed, made, keep_engine, create_engine, run_script, in_state,
  construct,
}
use cpe_acs_connector_tr.LuaTransformer.Methods.{
  get_parameter_values, set_parameter_values, get_parameter_names,
}
use cpe_acs_connector_tr.LuaTransformer.Values.{get_parameter_values-Agrees}
use cpe_acs_connector_tr.LuaTransformer.Updates.{set_parameter_values-Agrees}
use cpe_acs_connector_tr.LuaTransformer.Names.{get_parameter_names-Agrees}

-- The transformers that a constructed one becomes by calls, in any order.
pub data Reached {L : Type 0} (lua : Lua L) (script_path map_path : Bytes)
    : LuaTransformer L → Type 0 where
  constructed :
      (t : LuaTransformer L)
      → construct lua script_path map_path ≡ made t
      → Reached lua script_path map_path t
  got :
      (t : LuaTransformer L) (paths : List Bytes) (reveal_secrets : Bool)
      → Reached lua script_path map_path t
      → Reached lua script_path map_path (get_parameter_values lua t paths reveal_secrets).1
  set :
      (t : LuaTransformer L) (values : List ParameterValue) (key : Bytes)
      → Reached lua script_path map_path t
      → Reached lua script_path map_path (set_parameter_values lua t values key).1
  named :
      (t : LuaTransformer L) (path : Bytes)
      → Reached lua script_path map_path t
      → Reached lua script_path map_path (get_parameter_names lua t path).1

module _ {L H V : Type 0} (lua : Lua L) (m : Meaning H V) (At : L → H → List V → Type 0)
    (manual : Manual L H V lua m At) where
  -- Ready, with an empty stack.
  abbrev pub IsReady : LuaTransformer L → Type 0
  IsReady t = (t.ready ≡ true) × ((h : H) × At t.state h [])

  abbrev IsReadyIfMade : Construction L → Type 0
  IsReadyIfMade (failed e) = Unit {0}
  IsReadyIfMade (made t) = IsReady t

  keep_engine-IsReady :
      (l : L) (h : H) (o : Outcome V)
      → returned_ok o ≡ true
      → At l h (left_by o [])
      → IsReadyIfMade (keep_engine lua l)
  unfolding keep_engine
  keep_engine-IsReady l h (raised e) ok at = cc
  keep_engine-IsReady l h (results a b) ok at = elim (Bool-cases (lua.is_table l 2)) [
    | inr e ↦ rw e tt
    | inl e ↦
        let at1 = manual.push_second l h b a [] at in
        let (h', at2) = manual.ref _ h a (b ∷ a ∷ []) at1 in
        rw e (refl, (h', manual.clear _ h' _ at2))
  ]

  create_engine-IsReady :
      (l : L) (map_path : Bytes) (h : H) (v : V)
      → At l h (v ∷ [])
      → IsReadyIfMade (create_engine lua l map_path)
  unfolding create_engine
  create_engine-IsReady l map_path h v at =
      let at1 = manual.get_field l h v [] (codes "new") at in
      let f = m.field h v (codes "new") in
      let at2 = manual.remove_second _ h f v [] at1 in
      let l1 = lua.remove_second (lua.get_field l (codes "new")) in
      let at3 = manual.push_string l1 h (f ∷ []) map_path at2 in
      let (same, at4) = manual.call_one _ h (m.string map_path) f [] at3 in
      let called = lua.pcall (lua.push_string l1 map_path) 1 in
      elim (Bool-cases (lua.is_function l1)) [
        | inr e ↦ rw e tt
        | inl e ↦ elim (Bool-cases called.0) [
          | inr k ↦ rw (e, k) tt
          | inl k ↦ rw (e, k) (keep_engine-IsReady called.1 _ _ (sym same ∙ k) at4)
        ]
      ]

  run_script-IsReady :
      (l : L) (script_path map_path : Bytes) (h : H)
      → At l h []
      → IsReadyIfMade (run_script lua l script_path map_path)
  unfolding run_script
  run_script-IsReady l script_path map_path h at =
      let (chunk, at1) = manual.load_file l h [] script_path at in
      let loaded = lua.load_file l script_path in
      let (h', (v, at2)) = manual.call_chunk _ h chunk [] at1 in
      let ran = lua.pcall_chunk loaded.1 in
      elim (Bool-cases loaded.0) [
        | inr e ↦ rw e tt
        | inl e ↦ elim (Bool-cases ran.0) [
          | inr k ↦ rw (e, k) tt
          | inl k ↦ elim (Bool-cases (lua.is_table ran.1 1)) [
            | inr j ↦ rw (e, k, j) tt
            | inl j ↦ rw (e, k, j) (create_engine-IsReady ran.1 map_path h' v at2)
          ]
        ]
      ]

  in_state-IsReady :
      (o : Option L) (script_path map_path : Bytes)
      → lua.new_state ≡ o
      → IsReadyIfMade (in_state lua o script_path map_path)
  in_state-IsReady none script_path map_path e = tt
  in_state-IsReady (some l) script_path map_path e =
      let (h, at) = manual.new_state l e in
      let (h2, opened) = manual.open_libs l h [] at in
      run_script-IsReady (lua.open_libs l) script_path map_path h2 opened

  construct-IsReady :
      (script_path map_path : Bytes) → IsReadyIfMade (construct lua script_path map_path)
  unfolding construct
  construct-IsReady script_path map_path = in_state-IsReady lua.new_state script_path map_path refl

  -- A transformer that the constructor made ready stays so, and its Lua stack is empty, behind any
  -- calls in any order, whatever the Lua code returns or raises: no call leaves a value behind, and
  -- each finds the state that its contract asks for.
  pub reached-IsReady :
      (script_path map_path : Bytes) (t : LuaTransformer L)
      → Reached lua script_path map_path t
      → IsReady t
  reached-IsReady script_path map_path _ (constructed t e) =
      subst IsReadyIfMade e (construct-IsReady script_path map_path)
  reached-IsReady script_path map_path _ (got t paths reveal_secrets before) =
      let (ready, (h, at)) = reached-IsReady script_path map_path t before in
      let (_, at', ready') =
        get_parameter_values-Agrees lua m At manual t paths reveal_secrets h ready at in
      (ready', (_, at'))
  reached-IsReady script_path map_path _ (set t values key before) =
      let (ready, (h, at)) = reached-IsReady script_path map_path t before in
      let (_, at', ready') = set_parameter_values-Agrees lua m At manual t values key h ready at in
      (ready', (_, at'))
  reached-IsReady script_path map_path _ (named t path before) =
      let (ready, (h, at)) = reached-IsReady script_path map_path t before in
      let (_, at', ready') = get_parameter_names-Agrees lua m At manual t path h ready at in
      (ready', (_, at'))
