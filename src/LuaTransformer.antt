-- ===== src/LuaTransformer.antt =====
-- The transformer that runs in Lua (src/transformer/lua_transformer.cpp), over the Lua interface:
-- its members, the constructor and the call of a method; Methods: the three methods.
-- The mutex, which makes each call one step, is left out. A name of the code that Lua also has is
-- that of the C++ code.
pub mod Methods
pub mod Contract
pub mod Fields
pub mod Arguments
pub mod Results
pub mod Values
pub mod Updates
pub mod Names
pub mod Reached
use cpe_acs_connector_tr.Base.{
  ℕ, zero, suc, ◌+◌, Bool, true, false, not, List, [], ◌∷◌, ◌++◌, Option, none, some, if◌then◌else◌,
  Bytes, codes, is_empty,
}
use cpe_acs_connector_tr.Types.{ParameterValue, ParameterInfo}
use cpe_acs_connector_tr.Transformer.{SetResult}
use cpe_acs_connector_tr.Lua.{Lua}

-- The members. `ready` is `state_ != nullptr && engineRef_ >= 0`.
pub record LuaTransformer (L : Type 0) : Type 0 where
  pub state : L
  pub ready : Bool
  pub last_error : Bytes

-- What the constructor leaves: an object with no state and this error, the state that it had made
-- being closed; or one that is ready.
pub data Construction (L : Type 0) : Type 0 where
  failed : Bytes → Construction L
  made : LuaTransformer L → Construction L

abbrev pub text_or : Option Bytes → Bytes → Bytes
text_or none fallback = fallback
text_or (some t) fallback = t

abbrev pub missing : Bytes → Bytes
missing name = codes "Transformer method missing: " ++ name

module _ {L : Type 0} (lua : Lua L) where
  unfoldable pub field_string : L → Bytes → Bytes × L
  field_string l field =
      let (text, l') = lua.to_string (lua.get_field l field) in (text_or text [], lua.pop l' 1)

  unfoldable pub field_bool : L → Bytes → Bool × L
  field_bool l field = let l' = lua.get_field l field in (lua.to_boolean l' 1, lua.pop l' 1)

  unfoldable pub pop_lua_error : L → Bytes × L
  pop_lua_error l =
      let (error, l') = lua.to_string l in (text_or error (codes "unknown Lua error"), lua.pop l' 1)

  -- The results of `new` are on the stack.
  unfoldable pub keep_engine : L → Construction L
  keep_engine l =
      if not (lua.is_table l 2)
      then failed (
          if lua.is_string l
          then text_or (lua.to_string l).0 []
          else codes "cannot create Transformer engine")
      else made (record {
        state = lua.clear (lua.ref (lua.push_second l));
        ready = true;
        last_error = [];
      })

  -- The module's table is on top.
  unfoldable pub create_engine : L → Bytes → Construction L
  create_engine l map_path =
      let l1 = lua.remove_second (lua.get_field l (codes "new")) in
      let (ok, l2) = lua.pcall (lua.push_string l1 map_path) 1 in
      if not (lua.is_function l1)
      then failed (codes "transformer.lua does not export new()")
      else if not ok
      then failed (pop_lua_error l2).0
      else keep_engine l2

  unfoldable pub run_script : L → Bytes → Bytes → Construction L
  run_script l script_path map_path =
      let (loaded, l1) = lua.load_file l script_path in
      let (ran, l2) = lua.pcall_chunk l1 in
      if not loaded
      then failed (pop_lua_error l1).0
      else if not ran
      then failed (pop_lua_error l2).0
      else if not (lua.is_table l2 1)
      then failed (codes "transformer.lua did not return a module table")
      else create_engine l2 map_path

  abbrev pub in_state : Option L → Bytes → Bytes → Construction L
  in_state none script_path map_path = failed (codes "cannot create Lua state")
  in_state (some l) script_path map_path = run_script (lua.open_libs l) script_path map_path

  unfoldable pub construct : Bytes → Bytes → Construction L
  construct script_path map_path = in_state lua.new_state script_path map_path

  -- The method on top of the stack, or the failure.
  unfoldable pub push_function : LuaTransformer L → Bytes → Bool × LuaTransformer L
  push_function t name =
      let l = lua.remove_second (lua.get_field (lua.push_engine t.state) name) in
      if not t.ready
      then (false, t)
      else if not (lua.is_function l)
      then (false, record t { state = lua.pop l 1; last_error = missing name })
      else (true, record t { state = l })
