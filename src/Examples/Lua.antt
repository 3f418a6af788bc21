-- ===== src/Examples/Lua.antt =====
-- A Lua with a stack of a few kinds of values and an engine with one row, and the transformer on it.
use mathlib.Core.List.{List, [], ◌∷◌, ◌++◌}
use cpe_acs_connector_tr.Base.{
  ℕ, zero, suc, Bool, true, false, Option, none, some, ◌≡◌, refl, ap, ◌∙◌, if◌then◌else◌, Bytes,
  codes, equal, length, drop,
}
use cpe_acs_connector_tr.Types.{ParameterValue}
use cpe_acs_connector_tr.Lua.{Lua, Meaning, Manual, Outcome, results, raised, returned_ok, left_by}
use cpe_acs_connector_tr.LuaTransformer.{
  LuaTransformer, made, construct, run_script, create_engine, keep_engine,
}
use cpe_acs_connector_tr.LuaTransformer.Methods.{
  get_parameter_values, set_parameter_values, get_parameter_names,
}
use cpe_acs_connector_tr.LuaTransformer.Contract.{values_of, set_of, names_of}
use cpe_acs_connector_tr.LuaTransformer.Results.{Agrees}
use cpe_acs_connector_tr.LuaTransformer.Values.{get_parameter_values-Agrees}
use cpe_acs_connector_tr.LuaTransformer.Updates.{set_parameter_values-Agrees}
use cpe_acs_connector_tr.LuaTransformer.Names.{get_parameter_names-Agrees}
use cpe_acs_connector_tr.LuaTransformer.Reached.{constructed, set, IsReady, reached-IsReady}

data Value : Type 0 where
  nil : Value
  bool : Bool → Value
  text : Bytes → Value
  method : Bytes → Value
  table : Value  -- a list with one row, the row itself, and the engine

-- What Lua code can change is a count of calls that write.
abbrev State : Type 0
State = ℕ × List Value

abbrev text_of : Value → Option Bytes
text_of (text t) = some t
text_of _ = none

abbrev is_text : Value → Bool
is_text (text t) = true
is_text _ = false

abbrev is_table : Value → Bool
is_table table = true
is_table _ = false

abbrev is_method : Value → Bool
is_method (method name) = true
is_method _ = false

abbrev truth : Value → Bool
truth nil = false
truth (bool b) = b
truth _ = true

-- A field of the engine is a method, of a row a text.
abbrev field : Bytes → Value
field name =
    if equal name (codes "name")
    then text (codes "Device.Writes")
    else if equal name (codes "value")
    then text (codes "7")
    else if equal name (codes "type")
    then text (codes "xsd:string")
    else method name

abbrev called : ℕ → Value → Outcome Value × ℕ
called h (method name) =
    if equal name (codes "setParameterValues")
    then (results (bool true) nil, suc h)
    else (results table nil, h)
called h _ = (raised (text (codes "attempt to call a value")), h)

abbrev meaning : Meaning ℕ Value
meaning = record {
  engine = λ h. table;
  field = λ h v name. field name;
  entry = λ h v i. table;
  size = λ h v. 1;
  function_value = is_method;
  table_value = is_table;
  string_value = is_text;
  truth = truth;
  text = text_of;
  string = text;
  boolean = bool;
  new_table = λ h. (table, h);
  set_entry = λ h t i v. h;
  set_member = λ h t name v. h;
  call = λ h f arguments. called h f;
}

-- The value at a depth; 1 is the top.
abbrev nth : List Value → ℕ → Value
nth [] n = nil
nth (v ∷ s) zero = nil
nth (v ∷ s) (suc zero) = v
nth (v ∷ s) (suc (suc n)) = nth s (suc n)

nth-append :
    (before : List Value) (v : Value) (s : List Value)
    → nth (before ++ (v ∷ s)) (suc (length before)) ≡ v
nth-append [] v s = refl
nth-append (w ∷ before) v s = nth-append before v s

abbrev second_on : List Value → List Value
second_on (v ∷ w ∷ s) = w ∷ v ∷ w ∷ s
second_on s = s

abbrev without_second : List Value → List Value
without_second (v ∷ w ∷ s) = v ∷ s
without_second s = s

-- The function stands below `n` arguments.
abbrev call_below : ℕ → State → Bool × State
call_below n (h, s) =
    let (outcome, h') = called h (nth s (suc n)) in
    (returned_ok outcome, (h', left_by outcome (drop (suc n) s)))

abbrev lua : Lua State
lua = record {
  new_state = some (0, []);
  open_libs = λ l. l;
  load_file = λ l path. (true, (l.0, method path ∷ l.1));
  pcall_chunk = λ l. (true, (l.0, table ∷ drop 1 l.1));
  push_second = λ l. (l.0, second_on l.1);
  ref = λ l. (l.0, drop 1 l.1);
  push_engine = λ l. (l.0, table ∷ l.1);
  get_field = λ l name. (l.0, field name ∷ l.1);
  remove_second = λ l. (l.0, without_second l.1);
  pop = λ l n. (l.0, drop n l.1);
  clear = λ l. (l.0, []);
  is_function = λ l. is_method (nth l.1 1);
  is_table = λ l depth. is_table (nth l.1 depth);
  is_string = λ l. is_text (nth l.1 1);
  to_boolean = λ l depth. truth (nth l.1 depth);
  to_string = λ l. (text_of (nth l.1 1), l);
  raw_len = λ l depth. 1;
  raw_get_i = λ l depth i. (l.0, table ∷ l.1);
  create_table = λ l. (l.0, table ∷ l.1);
  raw_set_i = λ l i. (l.0, drop 1 l.1);
  set_field = λ l name. (l.0, drop 1 l.1);
  push_string = λ l t. (l.0, text t ∷ l.1);
  push_boolean = λ l b. (l.0, bool b ∷ l.1);
  pcall = λ l n. call_below n l;
}

abbrev At : State → ℕ → List Value → Type 0
At l h s = l ≡ (h, s)

manual : Manual State ℕ Value lua meaning At
manual = record {
  new_state = λ l e. (0, cc);
  open_libs = λ l h s e. (h, e);
  load_file = λ l h s path e. (method path, ap (λ k. (k.0, method path ∷ k.1)) e);
  call_chunk = λ l h f s e. (h, (table, ap (λ k. (k.0, table ∷ drop 1 k.1)) e));
  push_second = λ l h v w s e. ap (λ k. (k.0, second_on k.1)) e;
  ref = λ l h v s e. (h, ap (λ k. (k.0, drop 1 k.1)) e);
  push_engine = λ l h s e. ap (λ k. (k.0, table ∷ k.1)) e;
  get_field = λ l h v s name e. ap (λ k. (k.0, field name ∷ k.1)) e;
  remove_second = λ l h v w s e. ap (λ k. (k.0, without_second k.1)) e;
  pop_one = λ l h v s e. ap (λ k. (k.0, drop 1 k.1)) e;
  clear = λ l h s e. ap (λ k. (k.0, [])) e;
  is_function = λ l h v s e. ap (λ k. is_method (nth k.1 1)) e;
  is_table = λ l h before v s e.
      ap (λ k. is_table (nth k.1 (suc (length before)))) e ∙ ap is_table (nth-append before v s);
  is_string = λ l h v s e. ap (λ k. is_text (nth k.1 1)) e;
  to_boolean = λ l h before v s e.
      ap (λ k. truth (nth k.1 (suc (length before)))) e ∙ ap truth (nth-append before v s);
  to_string = λ l h v s e. (ap (λ k. text_of (nth k.1 1)) e, (v, e));
  raw_len = λ l h before v s e. refl;
  raw_get_i = λ l h before v s i e. ap (λ k. (k.0, table ∷ k.1)) e;
  create_table = λ l h s e. ap (λ k. (k.0, table ∷ k.1)) e;
  raw_set_i = λ l h v t s i e. ap (λ k. (k.0, drop 1 k.1)) e;
  set_field = λ l h v t s name e. ap (λ k. (k.0, drop 1 k.1)) e;
  push_string = λ l h s t e. ap (λ k. (k.0, text t ∷ k.1)) e;
  push_boolean = λ l h s b e. ap (λ k. (k.0, bool b ∷ k.1)) e;
  call_one = λ l h a f s e. (ap (λ k. (call_below 1 k).0) e, ap (λ k. (call_below 1 k).1) e);
  call_two = λ l h a b f s e. (ap (λ k. (call_below 2 k).0) e, ap (λ k. (call_below 2 k).1) e);
}

abbrev transformer : LuaTransformer State
transformer = record { state = (0, []); ready = true; last_error = [] }

abbrev writes : List Bytes
writes = codes "Device.Writes" ∷ []

get_parameter_values-Agrees_example :
    Agrees lua meaning At manual
      (get_parameter_values lua transformer writes true)
      (values_of meaning 0 writes true)
get_parameter_values-Agrees_example =
    get_parameter_values-Agrees lua meaning At manual transformer writes true 0 refl refl

abbrev seven : List ParameterValue
seven = record { name = codes "Device.Writes"; value = codes "7"; type = codes "xsd:string" } ∷ []

set_parameter_values-Agrees_example :
    Agrees lua meaning At manual
      (set_parameter_values lua transformer seven [])
      (set_of meaning 0 seven [])
set_parameter_values-Agrees_example =
    set_parameter_values-Agrees lua meaning At manual transformer seven [] 0 refl refl

get_parameter_names-Agrees_example :
    Agrees lua meaning At manual
      (get_parameter_names lua transformer (codes "Device."))
      (names_of meaning 0 (codes "Device."))
get_parameter_names-Agrees_example =
    get_parameter_names-Agrees lua meaning At manual transformer (codes "Device.") 0 refl refl

made_here : construct lua (codes "t.lua") (codes "m") ≡ made transformer
unfolding construct run_script create_engine keep_engine codes equal
made_here = refl

reached-IsReady_example :
    IsReady lua meaning At manual (set_parameter_values lua transformer seven []).1
reached-IsReady_example =
    reached-IsReady lua meaning At manual (codes "t.lua") (codes "m")
      (set_parameter_values lua transformer seven []).1
      (set transformer seven [] (constructed transformer made_here))
