-- ===== src/Reader/Lines.antt =====
-- Which codes the reader takes from a message or a line.
use smart_fridge.Prelude.{
  ℕ, ◌≡◌, refl, ◌∙◌, ap, arith, Bytes, none, some, [], ◌∷◌, ◌++◌, true, false, ◌==◌, ◌⊎◌, inl, inr,
  ◌≢◌, Without, Without-append, cut_at, cut_at-append, cut_at-Without,
}
use smart_fridge.Prelude.Number.{strtol, to_int}
use smart_fridge.Prelude.Int.{pos}
use smart_fridge.Decoder.{create_product_node}
use smart_fridge.Reader.{
  socket_message, test_line, line_node, node_of, key_handler, db_mode_add, db_mode_remove,
}

-- A message `!code:number` in socket mode is taken for that code, if it holds no colon, with the
-- number that `strtol` reads.
pub socket_message-code :
    (code number : Bytes) (mode : ℕ)
    → Without b':' code
    → socket_message (b'!' ∷ (code ++ b':' ∷ number)) mode
      ≡ some (create_product_node code (to_int (strtol number)) mode)
unfolding socket_message
socket_message-code code number mode h = rw (cut_at-append b':' code number h)

-- A message without the mark, or without a colon, yields no code.
pub socket_message-error :
    (b : ℕ) (msg : Bytes) (mode : ℕ)
    → ((b == b'!') ≡ false) ⊎ Without b':' msg
    → socket_message (b ∷ msg) mode ≡ none
unfolding socket_message
socket_message-error b msg mode (inl h) = rw h
socket_message-error b msg mode (inr h) = ground (arith, cut_at-Without b':' msg h)

test_line-clean :
    (b : ℕ) (l : Bytes) (mode : ℕ)
    → Without b'#' (b ∷ l)
    → test_line (b ∷ l) mode ≡ some (line_node (b ∷ l) mode)
unfolding test_line
test_line-clean b l mode h = rw (cut_at-Without b'#' (b ∷ l) h)

-- A comment behind the first byte makes no difference to what a line yields, and a line that begins
-- with the mark of a comment yields no code.
pub test_line-comment :
    (b : ℕ) (l comment : Bytes) (mode : ℕ)
    → Without b'#' (b ∷ l)
    → (test_line ((b ∷ l) ++ b'#' ∷ comment) mode ≡ test_line (b ∷ l) mode)
      × (test_line (b'#' ∷ comment) mode ≡ none)
unfolding test_line cut_at
test_line-comment b l comment mode h =
    (rw (cut_at-append b'#' (b ∷ l) comment h, cut_at-Without b'#' (b ∷ l) h), refl)

-- A line with a code and a number, and one with a code alone, yields that code, if the code holds
-- no `#`, line end or colon and the number no `#` or line end; the number is what strtol reads, or
-- 1.
pub test_line-code :
    (b : ℕ) (code number : Bytes) (mode : ℕ)
    → Without b'#' (b ∷ code)
    → Without b'\n' (b ∷ code)
    → Without b':' (b ∷ code)
    → Without b'#' number
    → Without b'\n' number
    → (test_line (b ∷ ((code ++ b':' ∷ number) ++ b'\n' ∷ [])) mode
        ≡ some (create_product_node (b ∷ code) (to_int (strtol number)) mode))
      × (test_line (b ∷ (code ++ b'\n' ∷ [])) mode
          ≡ some (create_product_node (b ∷ code) (pos 1) mode))
test_line-code b code number mode h1 h2 h3 h4 h5 = (
  test_line-clean b _ mode (Without-append b'#' (b ∷ (code ++ b':' ∷ number)) _ numbered (refl, tt))
      ∙ ap (λ x. some (node_of (cut_at b':' x.0) mode))
          (cut_at-append b'\n' (b ∷ (code ++ b':' ∷ number)) [] one_line)
      ∙ ap (λ x. some (node_of x mode)) (cut_at-append b':' (b ∷ code) number h3),
  test_line-clean b _ mode (Without-append b'#' (b ∷ code) _ h1 (refl, tt))
      ∙ ap (λ x. some (node_of (cut_at b':' x.0) mode)) (cut_at-append b'\n' (b ∷ code) [] h2)
      ∙ ap (λ x. some (node_of x mode)) (cut_at-Without b':' (b ∷ code) h3),
)
  where
    numbered : Without b'#' (b ∷ (code ++ b':' ∷ number))
    numbered = Without-append b'#' (b ∷ code) _ h1 (refl, h4)

    one_line : Without b'\n' (b ∷ (code ++ b':' ∷ number))
    one_line = Without-append b'\n' (b ∷ code) _ h2 (refl, h5)

-- The handler swaps the two modes at SIGTSTP, and does nothing at another signal.
pub key_handler_lem :
    (mode : ℕ)
    → (mode ≡ db_mode_add) ⊎ (mode ≡ db_mode_remove)
    → (key_handler true mode ≢ mode)
      × (key_handler true (key_handler true mode) ≡ mode)
      × (key_handler false mode ≡ mode)
unfolding key_handler
key_handler_lem mode h = ground arith
