-- ===== src/Reader/Codes/Limits.antt =====
-- What the fixed buffers of the reader do to its messages, and what the daemon makes of those.
use smart_fridge.Prelude.{
  ℕ, ◌+◌, ◌≤◌, ◌≡◌, ◌↔◌, refl, ap, arith, Bytes, codes, some, ◌++◌, true, length, length-append,
  length-take, take-le,
}
use smart_fridge.Json.{CJson, Memory}
use smart_fridge.Decoder.{ProductNode}
use smart_fridge.Decoder.Stored.{sf_pr_decoder}
use smart_fridge.Sql.Engine.{Sqlite}
use smart_fridge.Db.Messages.{msg_decoder, store_decoded}
use smart_fridge.Db.Messages.Dispatch.{msg_decoder-header}
use smart_fridge.Reader.{db_mode_remove}
use smart_fridge.Reader.Codes.{
  remove_msg, of_api, print_url, Download, queued, decode_node, send_message, sf_send_product,
}

print_url-fits : (s : Bytes) → (print_url s ≡ s) ↔ (length s ≤ 99)
print_url-fits s = (λ e. omega (arith, ap length e, length-take 99 s), λ h. take-le 99 s h)

length-remove_msg : (code : Bytes) → length (remove_msg code) ≡ length code + 26
length-remove_msg code = omega (arith, length-append {0} code (codes "\",\"remove\":\"yes\"}"))

length-of_api : (code : Bytes) → length (of_api code) ≡ length code + 52
length-of_api code = omega (arith, length-append {0} code (codes ".json"))

-- A deletion request and the address of a product fit into the buffer of 100 bytes exactly if the
-- code has at most 73 and at most 47 bytes.
pub url-fits :
    (code : Bytes)
    → ((print_url (remove_msg code) ≡ remove_msg code) ↔ (length code ≤ 73))
      × ((print_url (of_api code) ≡ of_api code) ↔ (length code ≤ 47))
url-fits code =
    let (r, r') = print_url-fits (remove_msg code) in
    let (a, a') = print_url-fits (of_api code) in
    (
      (
        λ e. omega (arith, r e, length-remove_msg code),
        λ h. r' (omega (arith, length-remove_msg code)),
      ),
      (λ e. omega (arith, a e, length-of_api code), λ h. a' (omega (arith, length-of_api code))),
    )

pub send_message-fits :
    (header product : Bytes)
    → length header + length product ≤ 65535
    → send_message header product ≡ header ++ product
unfolding send_message
send_message-fits header product h =
    take-le 65535 (header ++ product) (omega (arith, length-append {0} header product))

-- A message of the reader that fits into its buffer is taken by the daemon, if both have the same
-- header, for the text that was sent, and the reader has reported success, if the calls of the
-- socket succeed.
pub send-msg_decoder :
    (c : CJson) (s : Sqlite) (header product : Bytes) (sent : ℕ) (db : s.Db)
    → length header + length product ≤ 65535
    → (sf_send_product true true true header product ≡ (0, some (send_message header product)))
      × (msg_decoder c s header sent (send_message header product) db
          ≡ store_decoded c s (sf_pr_decoder c product) db)
unfolding sf_send_product
send-msg_decoder c s header product sent db h = (
  refl,
  rw (take-le 65535 (header ++ product) (omega (arith, length-append {0} header product)))
      (msg_decoder-header c s header product sent db),
)

-- A node that was scanned in remove mode becomes, whatever the network and cJSON do, a message of which the
-- daemon is to delete the product, if its code has at most 73 bytes.
pub decode_node-remove :
    (c : CJson) (download : Download) (memory : Memory) (timestamp : Bytes) (node : ProductNode)
    → node.mode ≡ db_mode_remove
    → length node.code ≤ 73
    → decode_node c download memory timestamp node ≡ queued (some (remove_msg node.code))
unfolding decode_node
decode_node-remove c download memory timestamp node m h =
    rw m (ap (λ x. queued (some x)) ((url-fits node.code).0.1 h))
