-- ===== src/Lua.antt =====
-- The part of the Lua C interface that src/transformer/lua_transformer.cpp uses. Lua is not part of
-- the repository: its functions are an argument of the code, and what the manual says of them are
-- hypotheses. `L` is the `lua_State` and `V` a Lua value. Errors outside a protected call, which the
-- manual names for a lack of memory and for metamethods, are left out.
use cpe_acs_connector_tr.Base.{
  ℕ, suc, Bool, true, false, List, [], ◌∷◌, ◌++◌, Option, some, ◌≡◌, Bytes, length,
}

-- The functions, at the indices that the code uses. A depth of 1 is the index -1.
pub record Lua (L : Type 0) : Type 0 where
  -- `luaL_newstate`, which may give no state, and `luaL_openlibs`.
  pub new_state : Option L
  pub open_libs : L → L
  -- `luaL_loadfile`: whether it returned `LUA_OK`.
  pub load_file : L → Bytes → Bool × L
  -- `lua_pcall` with no argument, for one result.
  pub pcall_chunk : L → Bool × L
  -- `lua_pushvalue(state, -2)`.
  pub push_second : L → L
  -- `luaL_ref` of a value on top that is not nil: a reference that is not negative.
  pub ref : L → L
  -- `lua_rawgeti(state, LUA_REGISTRYINDEX, engineRef)`.
  pub push_engine : L → L
  -- `lua_getfield`, of the value on top.
  pub get_field : L → Bytes → L
  -- `lua_remove(state, -2)`.
  pub remove_second : L → L
  pub pop : L → ℕ → L
  -- `lua_settop(state, 0)`.
  pub clear : L → L
  pub is_function : L → Bool
  pub is_table : L → (depth : ℕ) → Bool
  pub is_string : L → Bool
  pub to_boolean : L → (depth : ℕ) → Bool
  -- `lua_tostring`, of the value on top, which may turn a number on the stack into its text.
  pub to_string : L → Option Bytes × L
  pub raw_len : L → (depth : ℕ) → ℕ
  -- `lua_rawgeti`, of the table at a depth.
  pub raw_get_i : L → (depth : ℕ) → ℕ → L
  pub create_table : L → L
  -- `lua_rawseti` and `lua_setfield`, of the table at the index -2.
  pub raw_set_i : L → ℕ → L
  pub set_field : L → Bytes → L
  pub push_string : L → Bytes → L
  pub push_boolean : L → Bool → L
  -- `lua_pcall` with a number of arguments, for two results: whether it returned `LUA_OK`.
  pub pcall : L → (arguments : ℕ) → Bool × L

-- What a protected call leaves: two results, or an error.
pub data Outcome (V : Type 0) : Type 0 where
  results : V → V → Outcome V
  raised : V → Outcome V

-- What the functions mean. `H` is what the tables hold, and whatever else Lua code can change.
pub record Meaning (H V : Type 0) : Type 0 where
  pub engine : H → V
  pub field : H → V → Bytes → V
  pub entry : H → V → ℕ → V
  pub size : H → V → ℕ
  pub function_value : V → Bool
  pub table_value : V → Bool
  pub string_value : V → Bool
  pub truth : V → Bool
  pub text : V → Option Bytes
  pub string : Bytes → V
  pub boolean : Bool → V
  pub new_table : H → V × H
  pub set_entry : H → V → ℕ → V → H
  pub set_member : H → V → Bytes → V → H
  -- A function with its arguments in order.
  pub call : H → V → List V → Outcome V × H

-- What a call leaves on the stack, the top first.
abbrev pub left_by : {V : Type 0} → Outcome V → List V → List V
left_by (results a b) s = b ∷ a ∷ s
left_by (raised e) s = e ∷ s

abbrev pub returned_ok : {V : Type 0} → Outcome V → Bool
returned_ok (results a b) = true
returned_ok (raised e) = false

-- The manual's account of each function, on the heap and the stack of a state. A value on top stands
-- first. Reading a field changes nothing: the tables that the code reads have no metamethods.
pub record Manual (L H V : Type 0) (lua : Lua L) (m : Meaning H V) (At : L → H → List V → Type 0)
    : Type 0 where
  pub new_state : (l : L) → lua.new_state ≡ some l → (h : H) × At l h []
  pub open_libs : (l : L) (h : H) (s : List V) → At l h s → (h' : H) × At (lua.open_libs l) h' s
  pub load_file :
      (l : L) (h : H) (s : List V) (path : Bytes)
      → At l h s
      → (v : V) × At (lua.load_file l path).1 h (v ∷ s)
  pub call_chunk :
      (l : L) (h : H) (f : V) (s : List V)
      → At l h (f ∷ s)
      → (h' : H) × ((v : V) × At (lua.pcall_chunk l).1 h' (v ∷ s))
  pub push_second :
      (l : L) (h : H) (v w : V) (s : List V)
      → At l h (v ∷ w ∷ s)
      → At (lua.push_second l) h (w ∷ v ∷ w ∷ s)
  pub ref : (l : L) (h : H) (v : V) (s : List V) → At l h (v ∷ s) → (h' : H) × At (lua.ref l) h' s
  pub push_engine :
      (l : L) (h : H) (s : List V) → At l h s → At (lua.push_engine l) h (m.engine h ∷ s)
  pub get_field :
      (l : L) (h : H) (v : V) (s : List V) (name : Bytes)
      → At l h (v ∷ s)
      → At (lua.get_field l name) h (m.field h v name ∷ v ∷ s)
  pub remove_second :
      (l : L) (h : H) (v w : V) (s : List V)
      → At l h (v ∷ w ∷ s)
      → At (lua.remove_second l) h (v ∷ s)
  pub pop_one : (l : L) (h : H) (v : V) (s : List V) → At l h (v ∷ s) → At (lua.pop l 1) h s
  pub clear : (l : L) (h : H) (s : List V) → At l h s → At (lua.clear l) h []
  pub is_function :
      (l : L) (h : H) (v : V) (s : List V) → At l h (v ∷ s) → lua.is_function l ≡ m.function_value v
  pub is_table :
      (l : L) (h : H) (before : List V) (v : V) (s : List V)
      → At l h (before ++ (v ∷ s))
      → lua.is_table l (suc (length before)) ≡ m.table_value v
  pub is_string :
      (l : L) (h : H) (v : V) (s : List V) → At l h (v ∷ s) → lua.is_string l ≡ m.string_value v
  pub to_boolean :
      (l : L) (h : H) (before : List V) (v : V) (s : List V)
      → At l h (before ++ (v ∷ s))
      → lua.to_boolean l (suc (length before)) ≡ m.truth v
  pub to_string :
      (l : L) (h : H) (v : V) (s : List V)
      → At l h (v ∷ s)
      → ((lua.to_string l).0 ≡ m.text v) × ((w : V) × At (lua.to_string l).1 h (w ∷ s))
  pub raw_len :
      (l : L) (h : H) (before : List V) (v : V) (s : List V)
      → At l h (before ++ (v ∷ s))
      → lua.raw_len l (suc (length before)) ≡ m.size h v
  pub raw_get_i :
      (l : L) (h : H) (before : List V) (v : V) (s : List V) (i : ℕ)
      → At l h (before ++ (v ∷ s))
      → At (lua.raw_get_i l (suc (length before)) i) h (m.entry h v i ∷ (before ++ (v ∷ s)))
  pub create_table :
      (l : L) (h : H) (s : List V)
      → At l h s
      → At (lua.create_table l) (m.new_table h).1 ((m.new_table h).0 ∷ s)
  pub raw_set_i :
      (l : L) (h : H) (v t : V) (s : List V) (i : ℕ)
      → At l h (v ∷ t ∷ s)
      → At (lua.raw_set_i l i) (m.set_entry h t i v) (t ∷ s)
  pub set_field :
      (l : L) (h : H) (v t : V) (s : List V) (name : Bytes)
      → At l h (v ∷ t ∷ s)
      → At (lua.set_field l name) (m.set_member h t name v) (t ∷ s)
  pub push_string :
      (l : L) (h : H) (s : List V) (text : Bytes)
      → At l h s
      → At (lua.push_string l text) h (m.string text ∷ s)
  pub push_boolean :
      (l : L) (h : H) (s : List V) (b : Bool)
      → At l h s
      → At (lua.push_boolean l b) h (m.boolean b ∷ s)
  pub call_one :
      (l : L) (h : H) (a f : V) (s : List V)
      → At l h (a ∷ f ∷ s)
      → let (outcome, h') = m.call h f (a ∷ []) in
        ((lua.pcall l 1).0 ≡ returned_ok outcome) × At (lua.pcall l 1).1 h' (left_by outcome s)
  pub call_two :
      (l : L) (h : H) (a b f : V) (s : List V)
      → At l h (b ∷ a ∷ f ∷ s)
      → let (outcome, h') = m.call h f (a ∷ b ∷ []) in
        ((lua.pcall l 2).0 ≡ returned_ok outcome) × At (lua.pcall l 2).1 h' (left_by outcome s)
