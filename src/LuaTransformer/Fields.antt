-- ===== src/LuaTransformer/Fields.antt =====
-- The readers against the stack: each leaves it as it was.
use cpe_acs_connector_tr.Base.{
  ℕ, zero, suc, ◌+◌, List, [], ◌∷◌, ◌≡◌, refl, ap, inl, inr, Bool-cases, Bytes, codes,
}
use cpe_acs_connector_tr.Lua.{Lua, Meaning, Manual}
use cpe_acs_connector_tr.LuaTransformer.{text_or, field_string, field_bool, pop_lua_error}
use cpe_acs_connector_tr.LuaTransformer.Methods.{read_value, read_info, read_rows, read_texts}
use cpe_acs_connector_tr.LuaTransformer.Contract.{
  text_of, value_row, info_row, rows, texts, error_text,
}

module _ {L H V : Type 0} (lua : Lua L) (m : Meaning H V) (At : L → H → List V → Type 0)
    (manual : Manual L H V lua m At) where
  -- The reader gives what the row means, and leaves the row on top.
  abbrev pub Reads : {A : Type 0} → (L → A × L) → (H → V → A) → Type 0
  Reads read row =
      (l : L) (h : H) (v : V) (s : List V)
      → At l h (v ∷ s)
      → ((read l).0 ≡ row h v) × At (read l).1 h (v ∷ s)

  pub field_string-Reads :
      (name : Bytes) → Reads (λ l. field_string lua l name) (λ h v. text_of m h v name)
  unfolding field_string
  field_string-Reads name l h v s at =
      let got = manual.get_field l h v s name at in
      let (same, (w, read)) =
        manual.to_string (lua.get_field l name) h (m.field h v name) (v ∷ s) got in
      (ap (λ t. text_or t []) same, manual.pop_one _ h w (v ∷ s) read)

  pub field_bool-Reads :
      (name : Bytes) → Reads (λ l. field_bool lua l name) (λ h v. m.truth (m.field h v name))
  unfolding field_bool
  field_bool-Reads name l h v s at =
      let got = manual.get_field l h v s name at in
      (
        manual.to_boolean _ h [] (m.field h v name) (v ∷ s) got,
        manual.pop_one _ h (m.field h v name) (v ∷ s) got,
      )

  pub read_value-Reads : Reads (read_value lua) (value_row m)
  unfolding read_value
  read_value-Reads l h v s at =
      let (name, at1) = field_string-Reads (codes "name") l h v s at in
      let (value, at2) = field_string-Reads (codes "value") _ h v s at1 in
      let (type, at3) = field_string-Reads (codes "type") _ h v s at2 in (cc, at3)

  pub read_info-Reads : Reads (read_info lua) (info_row m)
  unfolding read_info
  read_info-Reads l h v s at =
      let (name, at1) = field_string-Reads (codes "name") l h v s at in
      let (writable, at2) = field_bool-Reads (codes "writable") _ h v s at1 in (cc, at2)

  -- The loop over the rows of the table at the index -2.
  pub read_rows-Reads :
      {A : Type 0} (read : L → A × L) (row : H → V → A)
      → Reads read row
      → (n i : ℕ) (l : L) (h : H) (b t : V) (s : List V) → At l h (b ∷ t ∷ s)
      → ((read_rows lua read n i l).0 ≡ rows m row h t n i)
        × At (read_rows lua read n i l).1 h (b ∷ t ∷ s)
  unfolding read_rows rows
  read_rows-Reads read row reads zero i l h b t s at = (refl, at)
  read_rows-Reads read row reads (suc n) i l h b t s at =
      let entry = m.entry h t i in
      let got = manual.raw_get_i l h (b ∷ []) t s i at in
      let is_table = manual.is_table _ h [] entry (b ∷ t ∷ s) got in
      elim (Bool-cases (m.table_value entry)) [
        | inl e ↦
            let (first, at1) = reads _ h entry (b ∷ t ∷ s) got in
            let at2 = manual.pop_one _ h entry (b ∷ t ∷ s) at1 in
            let (rest, at3) = read_rows-Reads read row reads n (i + 1) _ h b t s at2 in
            rw (is_table, e) (cc, at3)
        | inr e ↦
            let at2 = manual.pop_one _ h entry (b ∷ t ∷ s) got in
            rw (is_table, e) (read_rows-Reads read row reads n (i + 1) _ h b t s at2)
      ]

  -- The loop over the texts of the table on top.
  pub read_texts-Reads :
      (n i : ℕ) (l : L) (h : H) (t : V) (s : List V)
      → At l h (t ∷ s)
      → ((read_texts lua n i l).0 ≡ texts m h t n i) × At (read_texts lua n i l).1 h (t ∷ s)
  unfolding read_texts texts
  read_texts-Reads zero i l h t s at = (refl, at)
  read_texts-Reads (suc n) i l h t s at =
      let got = manual.raw_get_i l h [] t s i at in
      let (text, (w, at1)) = manual.to_string _ h (m.entry h t i) (t ∷ s) got in
      let at2 = manual.pop_one _ h w (t ∷ s) at1 in
      let (rest, at3) = read_texts-Reads n (i + 1) _ h t s at2 in (cc, at3)

  pub pop_lua_error-Reads :
      (l : L) (h : H) (e : V) (s : List V)
      → At l h (e ∷ s)
      → ((pop_lua_error lua l).0 ≡ error_text m e) × At (pop_lua_error lua l).1 h s
  unfolding pop_lua_error
  pop_lua_error-Reads l h e s at =
      let (same, (w, read)) = manual.to_string l h e s at in
      (ap (λ t. text_or t (codes "unknown Lua error")) same, manual.pop_one _ h w s read)
