-- ===== src/Download/Transfer.antt =====
-- Where a download is stored, and what is reported of it.
use cpe_acs_connector_tr.Base.{
  true, false, [], ◌∷◌, inl, inr, ◌≡◌, refl, arith, Bool-cases, Bytes, codes, all, is_empty,
}
use cpe_acs_connector_tr.Download.{is_name_byte, safe_bytes, safe_file_name}

safe_bytes-all : (name : Bytes) → all is_name_byte (safe_bytes name) ≡ true
unfolding safe_bytes
safe_bytes-all [] = refl
safe_bytes-all (c ∷ name) = ground (arith, safe_bytes-all name)

safe_bytes-kept : (name : Bytes) → all is_name_byte name ≡ true → safe_bytes name ≡ name
unfolding safe_bytes
safe_bytes-kept [] h = refl
safe_bytes-kept (c ∷ name) h = ground (arith, safe_bytes-kept name)

-- Whatever the ACS names, the file's name holds letters, digits, dots, underscores and dashes
-- only, so no slash, and is not empty; a name of such bytes is kept.
pub safe_file_name_lem :
    (name : Bytes)
    → (all is_name_byte (safe_file_name name) ≡ true)
      × (is_empty (safe_file_name name) ≡ false)
      × (all is_name_byte name ≡ true → is_empty name ≡ false → safe_file_name name ≡ name)
unfolding safe_file_name codes
safe_file_name_lem name = elim (Bool-cases (is_empty (safe_bytes name))) [
  | inl h ↦ rw h (refl, refl, λ k e. cc (safe_bytes-kept name k))
  | inr h ↦ rw h (safe_bytes-all name, h, λ k e. safe_bytes-kept name k)
]
