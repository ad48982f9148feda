-- ===== src/Reader/Handler/Sound.antt =====
-- The queue behind `sf_bar_handler`.
use smart_fridge.Prelude.{
  ℕ, zero, suc, Bytes, Option, none, some, List, [], ◌∷◌, Bool, true, false, if◌then◌else◌, codes,
}
use smart_fridge.Prelude.Int.{ℤ, pos, eq_ℤ}
use smart_fridge.Queue.{Queue}
use smart_fridge.Queue.Holds.{Holds}
use smart_fridge.Queue.Refine.{add_refines}
use smart_fridge.Decoder.{ProductNode, create_product_node}
use smart_fridge.Reader.{test_line, socket_message}
use smart_fridge.Reader.Handler.{
  offer, z_handler, test_pass, test_passes, Handled, returned, exited, crashed, runs, test_read,
  test_mode, receive_msg, socket_node_of, socket_client, served_client, socket_mode_loop, Camera,
  z_images, camera_mode, socket_end, socket_mode, Sources, unless_socket, sf_bar_handler,
}
use smart_fridge.Json.Laws.{same_key}

-- The table stands for some list.
abbrev pub IsTable : Queue ProductNode → Type 0
IsTable q = (xs : List ProductNode) × Holds q xs

offer-IsTable : (o : Option ProductNode) (q : Queue ProductNode) → IsTable q → IsTable (offer o q)
offer-IsTable none q t = t
offer-IsTable (some node) q (xs, h) = (_, (add_refines q xs node h).1)

symbols-IsTable :
    (symbols : List Bytes) (mode : ℕ) (q : Queue ProductNode)
    → IsTable q
    → IsTable (z_handler symbols mode q)
unfolding z_handler
symbols-IsTable [] mode q t = t
symbols-IsTable (code ∷ symbols) mode q t =
    symbols-IsTable symbols mode _
      (offer-IsTable (some (create_product_node code (pos 1) mode)) q t)

images-IsTable :
    (images : List (List Bytes × ℕ)) (q : Queue ProductNode)
    → IsTable q
    → IsTable (z_images images q)
unfolding z_images
images-IsTable [] q t = t
images-IsTable ((symbols, mode) ∷ images) q t =
    images-IsTable images _ (symbols-IsTable symbols mode q t)

pass-IsTable :
    (lines : List Bytes) (mode : ℕ) (q : Queue ProductNode)
    → IsTable q
    → IsTable (test_pass lines mode q)
unfolding test_pass
pass-IsTable [] mode q t = t
pass-IsTable (line ∷ lines) mode q t =
    pass-IsTable lines mode _ (offer-IsTable (test_line line mode) q t)

passes-IsTable :
    (n : ℕ) (lines : List Bytes) (mode : ℕ) (q : Queue ProductNode)
    → IsTable q
    → IsTable (test_passes n lines mode q)
unfolding test_passes
passes-IsTable zero lines mode q t = t
passes-IsTable (suc n) lines mode q t = passes-IsTable n lines mode _ (pass-IsTable lines mode q t)

abbrev OfOption : Option (Queue ProductNode) → Type 0
OfOption none = Unit
OfOption (some q) = IsTable q

chunk-OfOption :
    (msg : Option Bytes) (mode : ℕ) (next : Option ProductNode → Option (Queue ProductNode))
    → ((node : Option ProductNode) → OfOption (next node))
    → OfOption (socket_node_of msg mode next)
chunk-OfOption none mode next h = tt
chunk-OfOption (some msg) mode next h = h (socket_message msg mode)

client-OfOption :
    (chunks : List Bytes) (mode : ℕ) (q : Queue ProductNode)
    → IsTable q
    → OfOption (socket_client chunks mode q)
unfolding socket_client
client-OfOption [] mode q t = t
client-OfOption (chunk ∷ chunks) mode q t =
    chunk-OfOption (receive_msg chunk) mode _
      (λ node. client-OfOption chunks mode _ (offer-IsTable node q t))

next-OfOption :
    (o : Option (Queue ProductNode)) (next : Queue ProductNode → Option (Queue ProductNode))
    → OfOption o
    → ((q : Queue ProductNode) → IsTable q → OfOption (next q))
    → OfOption (served_client o next)
next-OfOption none next t h = tt
next-OfOption (some q) next t h = h q t

clients-OfOption :
    (clients : List (Option (List Bytes))) (mode : ℕ) (q : Queue ProductNode)
    → IsTable q
    → OfOption (socket_mode_loop clients mode q)
unfolding socket_mode_loop
clients-OfOption [] mode q t = t
clients-OfOption (none ∷ clients) mode q t = clients-OfOption clients mode q t
clients-OfOption (some chunks ∷ clients) mode q t =
    next-OfOption (socket_client chunks mode q) _ (client-OfOption chunks mode q t)
      (λ q' t'. clients-OfOption clients mode q' t')

-- The queue that is left, where the handler returns or goes on.
abbrev pub OfHandled : Handled → Type 0
OfHandled (returned q) = IsTable q
OfHandled (runs q) = IsTable q
OfHandled (exited n) = Unit
OfHandled crashed = Unit

by_if : (b : Bool) (x y : Handled) → OfHandled x → OfHandled y → OfHandled (if b then x else y)
by_if true x y h k = h
by_if false x y h k = k

read-OfHandled :
    (repeat : Bool) (fp : Option (List Bytes)) (n mode : ℕ) (q : Queue ProductNode)
    → IsTable q
    → OfHandled (test_read repeat fp n mode q)
read-OfHandled repeat none n mode q t = tt
read-OfHandled true (some lines) n mode q t = passes-IsTable n lines mode q t
read-OfHandled false (some lines) n mode q t = pass-IsTable lines mode q t

test-OfHandled :
    (test_repeat : Option Bytes) (fp : Option (List Bytes)) (n mode : ℕ) (q : Queue ProductNode)
    → IsTable q
    → OfHandled (test_mode test_repeat fp n mode q)
unfolding test_mode
test-OfHandled none fp n mode q t = tt
test-OfHandled (some s) fp n mode q t = read-OfHandled (same_key s (codes "yes")) fp n mode q t

camera-OfHandled :
    (o : Option Camera) (q : Queue ProductNode) → IsTable q → OfHandled (camera_mode o q)
unfolding camera_mode
camera-OfHandled none q t = t
camera-OfHandled (some camera) q t =
    by_if camera.signal_set
      (if camera.initialised then returned (z_images camera.images q) else exited 1) (exited 1)
      (by_if camera.initialised (returned (z_images camera.images q)) (exited 1)
        (images-IsTable camera.images q t) tt)
      tt

end-OfHandled : (o : Option (Queue ProductNode)) → OfOption o → OfHandled (socket_end o)
end-OfHandled none t = tt
end-OfHandled (some q) t = t

socket-OfHandled :
    (bound : Bool) (clients : List (Option (List Bytes))) (mode : ℕ) (q : Queue ProductNode)
    → IsTable q
    → OfHandled (socket_mode bound clients mode q)
unfolding socket_mode
socket-OfHandled true clients mode q t = end-OfHandled _ (clients-OfOption clients mode q t)
socket-OfHandled false clients mode q t = tt

unless-OfHandled :
    (file test_repeat : Option Bytes) (s : Sources) (mode : ℕ) (q : Queue ProductNode)
    → IsTable q
    → OfHandled (unless_socket file test_repeat s mode q)
unless-OfHandled none test_repeat s mode q t = camera-OfHandled s.camera q t
unless-OfHandled (some file) test_repeat s mode q t =
    test-OfHandled test_repeat s.fp s.passes mode q t

-- Whatever the mode is, and whatever the sources bring: while nothing is taken out, a table that stands for a list
-- stands for one behind `sf_bar_handler`, whether it returns or goes on.
pub sf_bar_handler-OfHandled :
    (port : ℤ) (file test_repeat : Option Bytes) (s : Sources) (mode : ℕ) (q : Queue ProductNode)
    → IsTable q
    → OfHandled (sf_bar_handler port file test_repeat s mode q)
unfolding sf_bar_handler
sf_bar_handler-OfHandled port file test_repeat s mode q t =
    by_if (eq_ℤ port (pos 0)) (unless_socket file test_repeat s mode q)
      (socket_mode s.bound s.clients mode q) (unless-OfHandled file test_repeat s mode q t)
      (socket-OfHandled s.bound s.clients mode q t)
