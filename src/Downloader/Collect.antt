-- ===== src/Downloader/Collect.antt =====
-- What a download yields.
use smart_fridge.Prelude.{
  ℕ, suc, ◌+◌, ◌≡◌, refl, Bytes, Option, none, some, List, [], ◌∷◌, ◌++◌, Bool, true, false, ◌==◌,
  length, append-nil, length-append, append_assoc, arith, ==_iff,
}
use smart_fridge.Downloader.{DataFetch, sf_curl_callback, perform, sf_download_file, download_end}

unfoldable pub concat : List Bytes → Bytes
concat [] = []
concat (chunk ∷ chunks) = chunk ++ concat chunks

abbrev pub with_room : List Bytes → List (Bytes × Bool)
with_room [] = []
with_room (chunk ∷ chunks) = (chunk, true) ∷ with_room chunks

-- NULL if there was no chunk at all.
abbrev pub payload_of : List Bytes → Option Bytes
payload_of [] = none
payload_of (chunk ∷ chunks) = some (concat (chunk ∷ chunks))

same_length : (s : Bytes) → (length s == length s) ≡ true
same_length s = (==_iff (length s) (length s)).1 refl

perform-with_room :
    (chunks : List Bytes) (s : Bytes) (ok : Bool)
    → perform (with_room chunks) ok (record { payload = some s; size = length s })
      ≡ (ok, record { payload = some (s ++ concat chunks); size = length (s ++ concat chunks) })
unfolding perform sf_curl_callback concat
perform-with_room [] s ok = rw (append-nil s)
perform-with_room (chunk ∷ chunks) s ok =
    rw (same_length chunk, ← length-append s chunk, ← append_assoc s chunk (concat chunks))
      (perform-with_room chunks (s ++ chunk) ok)

from_zero : (n : ℕ) → 0 + n ≡ n
from_zero n = omega arith

-- Where a handle is created, memory is found for each chunk and libcurl reports no error, the download
-- succeeds with the chunks one after the other and their size; NULL and 0 if there was no chunk.
pub sf_download_file-concat :
    (chunks : List Bytes) (buffer : Option Bytes)
    → sf_download_file (record { created = true; chunks = with_room chunks; ok = true }) buffer
      ≡ (0, length (concat chunks), payload_of chunks)
unfolding sf_download_file perform sf_curl_callback concat
sf_download_file-concat [] buffer = refl
sf_download_file-concat (chunk ∷ chunks) buffer =
    rw (same_length chunk, from_zero (length chunk), perform-with_room chunks chunk true)

none_taken : (s : Bytes) → (0 == suc (length s)) ≡ false
none_taken s = ground arith

perform-fails :
    (before : List Bytes) (b : ℕ) (chunk : Bytes) (later : List (Bytes × Bool)) (ok : Bool)
    (f : DataFetch)
    → (perform (with_room before ++ (b ∷ chunk, false) ∷ later) ok f).0 ≡ false
unfolding perform sf_curl_callback
perform-fails [] b chunk later ok f = rw (none_taken chunk)
perform-fails (c ∷ before) b chunk later ok f =
    rw (same_length c) (perform-fails before b chunk later ok _)

perform-refused :
    (chunks : List Bytes) (f : DataFetch) → (perform (with_room chunks) false f).0 ≡ false
unfolding perform sf_curl_callback
perform-refused [] f = refl
perform-refused (c ∷ chunks) f = rw (same_length c) (perform-refused chunks _)

end-refused :
    (r : Bool × DataFetch) (buffer : Option Bytes)
    → r.0 ≡ false
    → download_end r buffer ≡ (1, 0, buffer)
end-refused (false, f) buffer e = refl
end-refused (true, f) buffer e = cc

-- If no memory is found for a chunk that is not empty, or libcurl reports an error behind the last chunk, the
-- download fails with the size 0, and the caller's buffer is left alone.
pub sf_download_file-error :
    (before : List Bytes) (b : ℕ) (chunk : Bytes) (later : List (Bytes × Bool)) (ok : Bool)
    (buffer : Option Bytes)
    → (sf_download_file
          (record {
            created = true;
            chunks = with_room before ++ (b ∷ chunk, false) ∷ later;
            ok = ok;
          })
          buffer
        ≡ (1, 0, buffer))
      × (sf_download_file (record { created = true; chunks = with_room before; ok = false }) buffer
          ≡ (1, 0, buffer))
unfolding sf_download_file
sf_download_file-error before b chunk later ok buffer = (
  end-refused _ buffer (perform-fails before b chunk later ok _),
  end-refused _ buffer (perform-refused before _),
)
