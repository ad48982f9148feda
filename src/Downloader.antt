-- ===== src/Downloader.antt =====
-- tools/downloader.c and include/downloader.h: the answer of a server, collected chunk by chunk. What
-- libcurl does is given by a session: whether a handle is created, the chunks for which it calls the
-- callback, each with whether memory is found for it, and whether it reports CURLE_OK when all are taken.
-- An empty chunk is handed over at most for an empty answer, so that none fails for want of memory before others come.
pub mod Collect
mod Tests
use smart_fridge.Prelude.{
  ℕ, ◌+◌, Bytes, Option, none, some, List, [], ◌∷◌, ◌++◌, Bool, true, false, ◌==◌, if◌then◌else◌,
  length, cut_at,
}

-- `struct data_fetch`
pub record DataFetch : Type 0 where
  pub payload : Option Bytes
  pub size : ℕ

abbrev pub string_of : Option Bytes → Bytes
string_of none = []
string_of (some s) = s

-- The callback; `contents` has `size * nmemb` bytes. Without memory `payload` is lost: `realloc` leaves the
-- old block, and the pointer to it is overwritten.
pub sf_curl_callback : Bool → Bytes → DataFetch → ℕ × DataFetch
sf_curl_callback false contents fetched = (0, record fetched { payload = none })
sf_curl_callback true contents fetched = (
  length contents,
  record {
    payload = some (string_of fetched.payload ++ contents);
    size = fetched.size + length contents;
  },
)

pub record Session : Type 0 where
  pub created : Bool
  pub chunks : List (Bytes × Bool)
  pub ok : Bool

-- `curl_easy_perform`: a callback that takes fewer bytes than it was given ends it with an error.
pub perform : List (Bytes × Bool) → Bool → DataFetch → Bool × DataFetch
unfolding sf_curl_callback
perform [] ok fetched = (ok, fetched)
perform ((contents, room) ∷ chunks) ok fetched =
    let (taken, fetched') = sf_curl_callback room contents fetched in
    let rest = perform chunks ok fetched' in
    if taken == length contents then rest else (false, fetched')

abbrev pub download_end : Bool × DataFetch → Option Bytes → ℕ × ℕ × Option Bytes
download_end (true, fetched) buffer = (0, fetched.size, fetched.payload)
download_end (false, fetched) buffer = (1, 0, buffer)

-- `retval`, `*size` and `*buffer`: where it fails, `buffer = NULL` leaves the caller's pointer as it is.
pub sf_download_file : Session → Option Bytes → ℕ × ℕ × Option Bytes
unfolding perform
sf_download_file session buffer =
    if session.created
    then download_end (perform session.chunks session.ok (record { payload = none; size = 0 }))
        buffer
    else (1, 0, buffer)

-- The payload as the string that the caller reads: up to the first NUL.
abbrev pub string_at : Option Bytes → Option Bytes
string_at none = none
string_at (some payload) = some (cut_at 0 payload).0

-- What `sf_decoder` gets, whose `buffer` is NULL before the call.
abbrev pub downloaded : ℕ × ℕ × Option Bytes → Option (Option Bytes)
downloaded (retval, size, buffer) = if retval == 0 then some (string_at buffer) else none
