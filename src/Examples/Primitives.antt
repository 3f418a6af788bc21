-- ===== src/Examples/Primitives.antt =====
-- The digest at known inputs.
use cpe_acs_connector_tr.Base.{◌≡◌, refl, Bytes, codes}
use cpe_acs_connector_tr.Md5.Reference.{block_processed}
use cpe_acs_connector_tr.Md5.Rounds.{md5_chunk-block_processed}
use cpe_acs_connector_tr.Md5.{padded, md5_chunk, initial_digest, md5_hex}
use cpe_acs_connector_tr.Md5.Padding.{IsPadding, padded-IsPadding}

padded-IsPadding_example : IsPadding (codes "abc") (padded (codes "abc"))
padded-IsPadding_example = padded-IsPadding (codes "abc")

-- A block of 64 bytes.
abbrev block : Bytes
block = codes "abcdefghijklmnopqrstuvwxyzABCDEFGHIJKLMNOPQRSTUVWXYZ0123456789./"

md5_chunk-block_processed_example :
    md5_chunk block initial_digest ≡ block_processed block initial_digest
unfolding codes
md5_chunk-block_processed_example = md5_chunk-block_processed block initial_digest refl

-- The digest of RFC 1321 for this text.
md5_hex_abc : md5_hex (codes "abc") ≡ codes "900150983cd24fb0d6963f7d28e17f72"
unfolding md5_hex codes
md5_hex_abc = refl
