-- ===== src/LuaTransformer/Contract.antt =====
-- What the three calls mean, on Lua values and with no stack: a call of the engine's method on a
-- table of the arguments, and the result read from the tables that it returns.
use cpe_acs_connector_tr.Base.{
  ℕ, zero, suc, ◌+◌, Bool, true, false, not, List, [], ◌∷◌, if◌then◌else◌, Bytes, codes, is_empty,
}
use cpe_acs_connector_tr.Types.{ParameterValue, ParameterInfo}
use cpe_acs_connector_tr.Transformer.{SetResult}
use cpe_acs_connector_tr.Lua.{Meaning, Outcome, results, raised}
use cpe_acs_connector_tr.LuaTransformer.{text_or, missing}
use cpe_acs_connector_tr.LuaTransformer.Methods.{with_text}

module _ {H V : Type 0} (m : Meaning H V) where
  abbrev pub text_of : H → V → Bytes → Bytes
  text_of h v name = text_or (m.text (m.field h v name)) []

  abbrev pub value_row : H → V → ParameterValue
  value_row h v = record {
    name = text_of h v (codes "name");
    value = text_of h v (codes "value");
    type = text_of h v (codes "type");
  }

  abbrev pub info_row : H → V → ParameterInfo
  info_row h v = record {
    name = text_of h v (codes "name");
    writable = m.truth (m.field h v (codes "writable"));
  }

  -- The entries from `i` on that are tables, `n` entries in all.
  unfoldable pub rows : {A : Type 0} → (H → V → A) → H → V → (n i : ℕ) → List A
  rows row h t zero i = []
  rows row h t (suc n) i =
      let rest = rows row h t n (i + 1) in
      if m.table_value (m.entry h t i) then row h (m.entry h t i) ∷ rest else rest

  -- The entries from `i` on that have a text.
  unfoldable pub texts : H → V → (n i : ℕ) → List Bytes
  texts h t zero i = []
  texts h t (suc n) i = with_text (m.text (m.entry h t i)) (texts h t n (i + 1))

  abbrev pub all_rows : {A : Type 0} → (H → V → A) → H → V → List A
  all_rows row h t = if m.table_value t then rows row h t (m.size h t) 1 else []

  abbrev pub all_texts : H → V → List Bytes
  all_texts h t = if m.table_value t then texts h t (m.size h t) 1 else []

  -- The heap once the paths are entered in the table from `i` on.
  unfoldable pub with_paths : H → V → ℕ → List Bytes → H
  with_paths h t i [] = h
  with_paths h t i (path ∷ paths) = with_paths (m.set_entry h t i (m.string path)) t (i + 1) paths

  abbrev pub with_row : H → V → ParameterValue → H
  with_row h row v =
      let h1 = m.set_member h row (codes "name") (m.string v.name) in
      let h2 = m.set_member h1 row (codes "value") (m.string v.value) in
      m.set_member h2 row (codes "type") (m.string v.type)

  -- The heap once the values are entered, each in a table of its own.
  unfoldable pub with_values : H → V → ℕ → List ParameterValue → H
  with_values h t i [] = h
  with_values h t i (v ∷ values) =
      let (row, h1) = m.new_table h in
      with_values (m.set_entry (with_row h1 row v) t i row) t (i + 1) values

  abbrev pub error_text : V → Bytes
  error_text e = text_or (m.text e) (codes "unknown Lua error")

  abbrev pub values_from : List Bytes → Outcome V × H → (List ParameterValue × List Bytes) × H
  values_from paths (raised e, h) = (([], paths), h)
  values_from paths (results a b, h) = ((all_rows value_row h a, all_texts h b), h)

  -- The result of `getParameterValues`, and the heap behind it: every path is invalid where there
  -- is no such method, or it fails.
  abbrev pub values_of : H → List Bytes → Bool → (List ParameterValue × List Bytes) × H
  values_of h paths reveal_secrets =
      let f = m.field h (m.engine h) (codes "getParameterValues") in
      let (t, h1) = m.new_table h in
      if not (m.function_value f)
      then (([], paths), h)
      else values_from paths
          (m.call (with_paths h1 t 1 paths) f (t ∷ m.boolean reveal_secrets ∷ []))

  abbrev pub refusal : Bytes → Bytes → SetResult
  refusal error failed = record {
    success = false;
    error = if is_empty error then codes "Transformer transaction failed" else error;
    failed_parameter = failed;
  }

  -- What the second result says of a failure.
  abbrev pub failure_of : H → V → Bytes × Bytes
  failure_of h b =
      if m.table_value b
      then (text_of h b (codes "message"), text_of h b (codes "path"))
      else if m.string_value b
      then (text_or (m.text b) [], [])
      else ([], [])

  abbrev pub set_from : Outcome V × H → SetResult × H
  set_from (raised e, h) =
      (record { success = false; error = error_text e; failed_parameter = [] }, h)
  set_from (results a b, h) = (
    if m.truth a
        then record { success = true; error = []; failed_parameter = [] }
        else refusal (failure_of h b).0 (failure_of h b).1,
    h,
  )

  -- The same of `setParameterValues`.
  abbrev pub set_of : H → List ParameterValue → Bytes → SetResult × H
  set_of h values parameter_key =
      let f = m.field h (m.engine h) (codes "setParameterValues") in
      let (t, h1) = m.new_table h in
      if not (m.function_value f)
      then (
        record {
          success = false;
          error = missing (codes "setParameterValues");
          failed_parameter = [];
        },
        h,
      )
      else set_from (m.call (with_values h1 t 1 values) f (t ∷ m.string parameter_key ∷ []))

  abbrev pub names_from : Outcome V × H → (List ParameterInfo × Bytes) × H
  names_from (raised e, h) = (([], error_text e), h)
  names_from (results a b, h) = (
    if m.table_value a then (rows info_row h a (m.size h a) 1, []) else (
      [],
      if m.string_value b then text_or (m.text b) [] else codes "unknown parameter path",
    ),
    h,
  )

  -- The same of `getParameterNames`.
  abbrev pub names_of : H → Bytes → (List ParameterInfo × Bytes) × H
  names_of h path =
      let f = m.field h (m.engine h) (codes "getParameterNames") in
      if not (m.function_value f)
      then (([], missing (codes "getParameterNames")), h)
      else names_from (m.call h f (m.string path ∷ []))
