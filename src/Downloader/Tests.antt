-- ===== src/Downloader/Tests.antt =====
-- The theorems on tools/downloader.c at a few chunks.
use smart_fridge.Prelude.{◌≡◌, codes, none, some, [], ◌∷◌, true, length}
use smart_fridge.Downloader.{sf_download_file}
use smart_fridge.Downloader.Collect.{concat, with_room, sf_download_file-concat}

sf_download_file-concat_example :
    sf_download_file
      (record { created = true; chunks = with_room (codes "{\"a\"" ∷ codes ":1}" ∷ []); ok = true })
      none
    ≡ (0, length (concat (codes "{\"a\"" ∷ codes ":1}" ∷ [])), some (codes "{\"a\":1}"))
unfolding concat
sf_download_file-concat_example = sf_download_file-concat (codes "{\"a\"" ∷ codes ":1}" ∷ []) none
