-- ===== src/Decoder/Retval.antt =====
-- What the decoders of tools/product_decoder.c return.
use smart_fridge.Prelude.{ℕ}

-- `enum pr_dec_error`
abbrev pub no_error : ℕ
no_error = 0

abbrev pub inv_format : ℕ
inv_format = 1

abbrev pub unex_fields : ℕ
unex_fields = 2

abbrev pub pr_not_found : ℕ
pr_not_found = 3

-- `#define DELETION_REQ 2`, the number of `unex_fields` too
abbrev pub deletion_req : ℕ
deletion_req = 2
