-- ===== src/Reader/Handler.antt =====
-- `sf_bar_handler` and `z_handler` of sf_reader.c: what the sources of codes put into the queue of nodes. A node
-- that finds the queue full is dropped.
pub mod Kept
pub mod Sound
mod Tests
use smart_fridge.Prelude.{
  ℕ, zero, suc, Bytes, codes, Option, none, some, List, [], ◌∷◌, Bool, true, false, ◌==◌,
  if◌then◌else◌, length, cut_at,
}
use smart_fridge.Prelude.Int.{ℤ, pos, eq_ℤ}
use smart_fridge.Json.Laws.{same_key}
use smart_fridge.Queue.{Queue, sf_queue_add}
use smart_fridge.Decoder.{ProductNode, create_product_node}
use smart_fridge.Reader.{socket_message, test_line}

abbrev pub offer : Option ProductNode → Queue ProductNode → Queue ProductNode
offer none idq = idq
offer (some node) idq = (sf_queue_add idq (some node)).1

-- The loop over the symbols of an image, given their data.
pub z_handler : List Bytes → ℕ → Queue ProductNode → Queue ProductNode
z_handler [] db_mode idq = idq
z_handler (code ∷ symbols) db_mode idq =
    z_handler symbols db_mode (offer (some (create_product_node code (pos 1) db_mode)) idq)

-- One pass over the lines of the test file.
pub test_pass : List Bytes → ℕ → Queue ProductNode → Queue ProductNode
test_pass [] db_mode idq = idq
test_pass (pr_id ∷ lines) db_mode idq =
    test_pass lines db_mode (offer (test_line pr_id db_mode) idq)

-- The file is read again and again; as many passes as are looked at.
pub test_passes : ℕ → List Bytes → ℕ → Queue ProductNode → Queue ProductNode
unfolding test_pass
test_passes zero lines db_mode idq = idq
test_passes (suc n) lines db_mode idq = test_passes n lines db_mode (test_pass lines db_mode idq)

-- How the handler goes on: it returns, it exits, it reads through NULL or writes out of bounds, or it does not
-- end.
pub data Handled : Type 0 where
  returned : Queue ProductNode → Handled
  exited : ℕ → Handled
  crashed : Handled
  runs : Queue ProductNode → Handled

abbrev pub test_read : Bool → Option (List Bytes) → ℕ → ℕ → Queue ProductNode → Handled
test_read repeat none n db_mode idq = exited 1
test_read true (some lines) n db_mode idq = runs (test_passes n lines db_mode idq)
test_read false (some lines) n db_mode idq = returned (test_pass lines db_mode idq)

-- Test mode: `test_repeat` is compared before the file is opened, which `fp` is the lines of. The passes
-- are those that are looked at of a file that is repeated.
pub test_mode : Option Bytes → Option (List Bytes) → ℕ → ℕ → Queue ProductNode → Handled
unfolding test_passes
test_mode none fp n db_mode idq = crashed
test_mode (some test_repeat) fp n db_mode idq =
    test_read (same_key test_repeat (codes "yes")) fp n db_mode idq

-- A chunk of `recv`, which is closed by a NUL behind it: out of the buffer of 65536 bytes, if it fills it.
pub receive_msg : Bytes → Option Bytes
receive_msg chunk = if length chunk == 65536 then none else some (cut_at 0 chunk).0

abbrev pub socket_node_of :
    Option Bytes
    → ℕ
    → (Option ProductNode → Option (Queue ProductNode))
    → Option (Queue ProductNode)
socket_node_of none db_mode next = none
socket_node_of (some msg) db_mode next = next (socket_message msg db_mode)

-- The loop over the chunks of one client; `none` is a write out of bounds.
pub socket_client : List Bytes → ℕ → Queue ProductNode → Option (Queue ProductNode)
unfolding receive_msg
socket_client [] db_mode idq = some idq
socket_client (chunk ∷ chunks) db_mode idq =
    socket_node_of (receive_msg chunk) db_mode
      (λ node. socket_client chunks db_mode (offer node idq))

abbrev pub served_client :
    Option (Queue ProductNode)
    → (Queue ProductNode → Option (Queue ProductNode))
    → Option (Queue ProductNode)
served_client none next = none
served_client (some idq) next = next idq

-- The loop over the calls of `accept`: a client with its chunks, or an error.
pub socket_mode_loop :
    List (Option (List Bytes)) → ℕ → Queue ProductNode → Option (Queue ProductNode)
unfolding socket_client
socket_mode_loop [] db_mode idq = some idq
socket_mode_loop (none ∷ clients) db_mode idq = socket_mode_loop clients db_mode idq
socket_mode_loop (some chunks ∷ clients) db_mode idq =
    served_client (socket_client chunks db_mode idq) (λ idq'. socket_mode_loop clients db_mode idq')

-- What zbar and the system do in camera mode: whether `signal` and the processor's start succeed, and the images,
-- each with the mode at its time.
pub record Camera : Type 0 where
  pub signal_set : Bool
  pub initialised : Bool
  pub images : List (List Bytes × ℕ)

pub z_images : List (List Bytes × ℕ) → Queue ProductNode → Queue ProductNode
unfolding z_handler
z_images [] idq = idq
z_images ((symbols, db_mode) ∷ images) idq = z_images images (z_handler symbols db_mode idq)

-- Without CAMERA_ENABLED nothing is done.
pub camera_mode : Option Camera → Queue ProductNode → Handled
unfolding z_images
camera_mode none idq = returned idq
camera_mode (some camera) idq =
    if camera.signal_set
    then (if camera.initialised then returned (z_images camera.images idq) else exited 1)
    else exited 1

abbrev pub socket_end : Option (Queue ProductNode) → Handled
socket_end none = crashed
socket_end (some idq) = runs idq

pub socket_mode : Bool → List (Option (List Bytes)) → ℕ → Queue ProductNode → Handled
unfolding socket_mode_loop
socket_mode bound clients db_mode idq =
    if bound then socket_end (socket_mode_loop clients db_mode idq) else exited 1

-- What the outside does: the socket and its clients, the camera, the lines of the test file and how many passes
-- over it are looked at.
pub record Sources : Type 0 where
  pub bound : Bool
  pub clients : List (Option (List Bytes))
  pub camera : Option Camera
  pub fp : Option (List Bytes)
  pub passes : ℕ

abbrev pub unless_socket : Option Bytes → Option Bytes → Sources → ℕ → Queue ProductNode → Handled
unless_socket none test_repeat s db_mode idq = camera_mode s.camera idq
unless_socket (some test_mode_file) test_repeat s db_mode idq =
    test_mode test_repeat s.fp s.passes db_mode idq

-- `test_repeat` is that of the configuration.
pub sf_bar_handler : ℤ → Option Bytes → Option Bytes → Sources → ℕ → Queue ProductNode → Handled
unfolding camera_mode socket_mode test_mode
sf_bar_handler socket_mode_port test_mode_file test_repeat s db_mode idq =
    if eq_ℤ socket_mode_port (pos 0)
    then unless_socket test_mode_file test_repeat s db_mode idq
    else socket_mode s.bound s.clients db_mode idq
