-- ===== src/LuaTransformer/Results.antt =====
-- The results of a call, and what a call owes to its contract.
use cpe_acs_connector_tr.Base.{true, List, [], ◌∷◌, ◌≡◌, refl, inl, inr, Bool-cases}
use cpe_acs_connector_tr.Lua.{Lua, Meaning, Manual}
use cpe_acs_connector_tr.LuaTransformer.{LuaTransformer}
use cpe_acs_connector_tr.LuaTransformer.Methods.{
  rows_at_second, texts_on_top, read_value, read_results,
}
use cpe_acs_connector_tr.LuaTransformer.Contract.{value_row, all_rows, all_texts}
use cpe_acs_connector_tr.LuaTransformer.Fields.{
  Reads, read_value-Reads, read_rows-Reads, read_texts-Reads,
}

module _ {L H V : Type 0} (lua : Lua L) (m : Meaning H V) (At : L → H → List V → Type 0)
    (manual : Manual L H V lua m At) where
  rows_at_second-Reads :
      {A : Type 0} (read : L → A × L) (row : H → V → A)
      → Reads lua m At manual read row
      → (l : L) (h : H) (b t : V) (s : List V) → At l h (b ∷ t ∷ s)
      → ((rows_at_second lua read l).0 ≡ all_rows m row h t)
        × At (rows_at_second lua read l).1 h (b ∷ t ∷ s)
  rows_at_second-Reads read row reads l h b t s at =
      let is_table = manual.is_table l h (b ∷ []) t s at in
      let size = manual.raw_len l h (b ∷ []) t s at in
      elim (Bool-cases (m.table_value t)) [
        | inl e ↦
            rw (is_table, e, size)
              (read_rows-Reads lua m At manual read row reads (m.size h t) 1 l h b t s at)
        | inr e ↦ rw (is_table, e) (refl, at)
      ]

  texts_on_top-Reads :
      (l : L) (h : H) (t : V) (s : List V)
      → At l h (t ∷ s)
      → ((texts_on_top lua l).0 ≡ all_texts m h t) × At (texts_on_top lua l).1 h (t ∷ s)
  texts_on_top-Reads l h t s at =
      let is_table = manual.is_table l h [] t s at in
      let size = manual.raw_len l h [] t s at in
      elim (Bool-cases (m.table_value t)) [
        | inl e ↦
            rw (is_table, e, size) (read_texts-Reads lua m At manual (m.size h t) 1 l h t s at)
        | inr e ↦ rw (is_table, e) (refl, at)
      ]

  pub read_results-Reads :
      (l : L) (h : H) (a b : V) (s : List V)
      → At l h (b ∷ a ∷ s)
      → ((read_results lua l).0 ≡ (all_rows m (value_row m) h a, all_texts m h b))
        × At (read_results lua l).1 h []
  unfolding read_results
  read_results-Reads l h a b s at =
      let (values, at1) =
        rows_at_second-Reads (read_value lua) (value_row m) (read_value-Reads lua m At manual) l h b
          a s at in
      let (invalid, at2) = texts_on_top-Reads _ h b (a ∷ s) at1 in
      (cc, manual.clear _ h (b ∷ a ∷ s) at2)

  -- A call gives what its contract says, and leaves the heap of the contract, an empty stack and a
  -- transformer that is ready.
  abbrev pub Agrees : {R : Type 0} → R × LuaTransformer L → R × H → Type 0
  Agrees (r, t) (r', h) = (r ≡ r') × At t.state h [] × (t.ready ≡ true)
