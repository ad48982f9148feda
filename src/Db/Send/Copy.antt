-- ===== src/Db/Send/Copy.antt =====
-- What `database_send` returns, and how much of the file it leaves unsent.
use smart_fridge.Prelude.{
  ℕ, suc, ◌+◌, ◌-◌, ◌^◌, ◌<◌, ◌≤◌, ◌≡◌, ap, ◌∙◌, arith, List, [], ◌∷◌, some, true, false,
}
use native.Mathlib.Nat.{mod-eq_of_lt}
use smart_fridge.Prelude.Int.{ℤ, pos, eq_ℤ, ltb_ℤ, ◌-ℤ◌}
use smart_fridge.Prelude.Number.{to_int, to_uint}
use smart_fridge.Db.Send.{Transfer, send_chunks, database_send}

-- `sendfile` sends some bytes in each of its calls up to the last, which sends none or fails.
abbrev pub calls : List ℕ → ℤ → List ℤ
calls [] end = end ∷ []
calls (k ∷ ks) end = pos (suc k) ∷ calls ks end

abbrev pub total : List ℕ → ℕ
total [] = 0
total (k ∷ ks) = suc k + total ks

less : (r k : ℕ) → suc k ≤ r → pos r -ℤ pos (suc k) ≡ pos (r - suc k)
unfolding ◌-ℤ◌
less r k h = ground arith

send_chunks-calls :
    (ks : List ℕ) (end : ℤ) (r : ℕ)
    → ltb_ℤ (pos 0) end ≡ false
    → total ks ≤ r
    → send_chunks (calls ks end) (pos r) ≡ pos (r - total ks)
unfolding send_chunks
send_chunks-calls [] end r e h = rw e (ap pos (omega arith))
send_chunks-calls (k ∷ ks) end r e h =
    rw (sent, positive, less r k (omega arith))
      (send_chunks-calls ks end (r - suc k) e (omega arith) ∙ ap pos (omega arith))
  where
    sent : ltb_ℤ (pos 0) (pos (suc k)) ≡ true
    sent = ground arith

    positive : ltb_ℤ (pos 0) (pos r) ≡ true
    positive = ground arith

to_int-small : (n : ℕ) → n < 2 ^ 31 → to_int (pos n) ≡ pos n
unfolding to_int to_uint
to_int-small n h = ground (arith, mod-eq_of_lt {n = n} {m = 2 ^ 32} (omega arith))

-- Once a file of less than 2^31 bytes was opened, and its size found and sent, database_send returns 0
-- whether or not the calls of sendfile up to one that sends nothing or fails, which send no more than
-- the file has, sent the whole file: what they did not send is left over.
pub database_send-calls :
    (t : Transfer) (size : ℕ) (ks : List ℕ) (end : ℤ)
    → eq_ℤ t.db_fd (pos 0) ≡ false
    → t.st_size ≡ some size
    → t.size_sent ≡ true
    → size < 2 ^ 31
    → t.sent_bytes ≡ calls ks end
    → ltb_ℤ (pos 0) end ≡ false
    → total ks ≤ size
    → database_send t ≡ (0, pos (size - total ks))
unfolding database_send
database_send-calls t size ks end opened found sent small made last fits =
    rw (opened, found, sent, made, to_int-small size small, send_chunks-calls ks end size last fits)
