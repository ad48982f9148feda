-- ===== src/Db/Send.antt =====
-- `database_send` of sf_db.c: a copy of the database file over a socket.
pub mod Copy
use smart_fridge.Prelude.{ℕ, Option, none, some, List, [], ◌∷◌, Bool, not, ◌&&◌, if◌then◌else◌}
use smart_fridge.Prelude.Int.{ℤ, pos, ◌-ℤ◌, eq_ℤ, ltb_ℤ}
use smart_fridge.Prelude.Number.{to_int}

-- What the system calls return: `open`, the size that `fstat` finds (`none` where it fails), whether `send`
-- of the size succeeds, and the calls of `sendfile` in order.
pub record Transfer : Type 0 where
  pub db_fd : ℤ
  pub st_size : Option ℕ
  pub size_sent : Bool
  pub sent_bytes : List ℤ

-- The loop: `sendfile` is called before `remaing` is looked at. The result is what is left of `remaing`,
-- which is an `int`.
pub send_chunks : List ℤ → ℤ → ℤ
send_chunks [] remaing = remaing
send_chunks (sent ∷ calls) remaing =
    let rest = send_chunks calls (remaing -ℤ sent) in
    if ltb_ℤ (pos 0) sent && ltb_ℤ (pos 0) remaing then rest else remaing

abbrev pub send_size : Option ℕ → Transfer → ℕ × ℤ
send_size none t = (1, pos 0)
send_size (some size) t =
    if not t.size_sent
    then (1, to_int (pos size))
    else (0, send_chunks t.sent_bytes (to_int (pos size)))

-- The return value, and what was left to be sent.
pub database_send : Transfer → ℕ × ℤ
unfolding send_chunks
database_send t = if eq_ℤ t.db_fd (pos 0) then (1, pos 0) else send_size t.st_size t
