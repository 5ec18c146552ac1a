-- ===== src/Tests/Scans.antt =====
-- A scan against a manifest, and a hash read back.
use xgraph.Prelude.{
  ℕ, suc, zero, ◌≡◌, ◌<◌, refl, List, [], ◌∷◌, true, false, contains, list_beq, arith,
}
use xgraph.Text.{text, text_key}
use xgraph.Cozo.NodeIds.{hex, hex_digit}
use xgraph.Hash.{ContentHash, from_hex, display, ok}
use xgraph.Hash.Roundtrip.{Bytes, from_hex-display, from_hex_plus}
use xgraph.Manifest.{PathBuf, path_key, ScannedFileInput, ActiveFileRow, reconcile}
use xgraph.Manifest.Buckets.{reconcile_lem}

abbrev repeated : ℕ → ℕ → List ℕ
repeated zero b = []
repeated (suc n) b = b ∷ repeated n b

repeated-Bytes : (n b : ℕ) → b < 256 → Bytes (repeated n b)
repeated-Bytes zero b h = tt
repeated-Bytes (suc n) b h = (h, repeated-Bytes n b h)

abbrev hash : ContentHash
hash = record { bytes = repeated 32 171 }

from_hex-display_example : from_hex (display hash) ≡ ok hash
from_hex-display_example = from_hex-display hash refl (repeated-Bytes 32 171 (omega arith))

from_hex_plus_example :
    from_hex (b'+' ∷ hex_digit 7 ∷ hex (repeated 31 171))
    ≡ ok (record { bytes = 7 ∷ repeated 31 171 })
from_hex_plus_example =
    from_hex_plus 7 (repeated 31 171) (omega arith) refl (repeated-Bytes 31 171 (omega arith))

abbrev main_path : PathBuf
main_path = text "src" ∷ text "main.rs" ∷ []

abbrev lib_path : PathBuf
lib_path = text "src" ∷ text "lib.rs" ∷ []

abbrev scanned : List ScannedFileInput
scanned =
    record { path = main_path; content_hash = text "h1"; mtime = 1; size = 10 }
    ∷ record { path = lib_path; content_hash = text "h2"; mtime = 1; size = 20 }
    ∷ []

abbrev active : List ActiveFileRow
active =
    record { path = main_path; content_hash = text "h0"; mtime = 1; size = 10; generation = 4 } ∷ []

reconcile_lem_example :
    let plan = reconcile scanned active in
    (contains plan.missing lib_path ≡ true)
    × (contains plan.dirty lib_path ≡ false)
    × (contains plan.deleted lib_path ≡ false)
unfolding list_beq
reconcile_lem_example = reconcile_lem scanned active lib_path
