-- ===== src/Reader/Threads/Ends.antt =====
-- The end of the threads behind the scan: they come to an end, whatever order they run in.
use smart_fridge.Prelude.{
  ℕ, ◌+◌, ◌*◌, ◌≤◌, ◌≡◌, refl, arith, Bytes, Option, none, some, List, [], ◌∷◌, length, true, ltb,
  ◌==◌, Bool-cases, ◌⊎◌, inl, inr, take,
}
use smart_fridge.Queue.{Queue, sf_queue_add, sf_queue_get}
use smart_fridge.Queue.Spec
use smart_fridge.Queue.Holds.{Holds}
use smart_fridge.Queue.Refine.{add_refines, get_refines}
use smart_fridge.Decoder.{ProductNode}
use smart_fridge.Reader.Codes.{Made, nothing, crashes, queued}
use smart_fridge.Reader.Threads.{
  Thread, idle, starved, ended, busy, State, Step, scan, end_scan, take_node, queue_product,
  queue_null, skip_node, miss_node, wait_node, end_decoder, take_product, send_product,
  miss_product, wait_product, end_storer, Reach, here, then, Prints,
}
use smart_fridge.Reader.Threads.Safety.{IsSound, Reach-IsSound}

module _ {A : Type 0} where
  length-take_tail : (x : A) (xs : List A) → length (take (length xs) (x ∷ xs)) ≡ length xs
  length-take_tail x [] = refl
  length-take_tail x (y ∷ ys) = omega (arith, length-take_tail y ys)

  length-taken : (cap : ℕ) (x : A) (xs : List A) → length (Spec.pop cap (x ∷ xs)).1 ≡ length xs
  unfolding Spec.pop
  length-taken cap x xs = elim (Bool-cases (length (x ∷ xs) == cap)) [
    | inl full ↦ rw full (length-take_tail x xs)
    | inr room ↦ rw room refl
  ]

  fewer :
      (q : Queue A) (x : A) (xs : List A)
      → Holds q xs
      → (sf_queue_get q).0 ≡ some x
      → (sf_queue_get q).1.current + 1 ≡ q.current
  unfolding Spec.pop
  fewer q x [] h e = let (r, kept, same) = get_refines q [] h in absurd (cc)
  fewer q x (y ∷ ys) h e =
      let (r, kept, same) = get_refines q (y ∷ ys) h in
      omega (arith, kept.counted, h.counted, length-taken q.size y ys)

  one_more :
      (q : Queue A) (x : A) (xs : List A)
      → Holds q xs
      → (sf_queue_add q (some x)).1.current ≤ q.current + 1
  unfolding Spec.push
  one_more q x xs h =
      let (r, kept, same) = add_refines q xs x h in
      elim (Bool-cases (ltb (length xs) q.size)) [
        | inl room ↦ let c = rw room at kept.counted in omega (arith, h.counted)
        | inr full ↦ let c = rw full at kept.counted in omega (arith, h.counted)
      ]

-- How many steps a thread has before it.
abbrev pub node_steps : Thread ProductNode → ℕ
node_steps idle = 2
node_steps starved = 1
node_steps ended = 0
node_steps (busy node) = 5

abbrev pub message_steps : Thread Bytes → ℕ
message_steps idle = 2
message_steps starved = 1
message_steps ended = 0
message_steps (busy message) = 3

-- At most so many steps are left behind the scan.
abbrev pub steps_left : State → ℕ
steps_left u =
    4 * u.idq.current + node_steps u.decoder + (2 * u.prq.current + message_steps u.storer)

module _ (makes : ProductNode → Made → Type 0) where
  -- The length of a sequence of steps.
  unfoldable pub steps : {u v : State} → Reach makes u v → ℕ
  steps here = 0
  steps (then r step) = steps r + 1

module _ (makes : ProductNode → Made → Type 0) (prints : Prints makes) where
  Step-decreases :
      {u v : State} (step : Step makes u v)
      → IsSound u
      → u.execution_ends ≡ true
      → (steps_left v + 1 ≤ steps_left u) × (v.execution_ends ≡ true)
  Step-decreases (scan node o) s over = absurd (cc)
  Step-decreases (end_scan o) s over = absurd (cc)
  Step-decreases {u} (take_node node i g) s over =
      let e : node_steps u.decoder ≡ 2 = rw i refl in
      (omega (arith, fewer u.idq node s.nodes s.idq_holds g), over)
  Step-decreases {u} (queue_product node message b m) s over =
      let e : node_steps u.decoder ≡ 5 = rw b refl in
      (omega (arith, one_more u.prq message s.messages s.prq_holds), over)
  Step-decreases (queue_null node b m) s over = absurd (prints node m)
  Step-decreases {u} (skip_node node b m) s over =
      let e : node_steps u.decoder ≡ 5 = rw b refl in (omega arith, over)
  Step-decreases {u} (miss_node i g) s over =
      let e : node_steps u.decoder ≡ 2 = rw i refl in (omega arith, over)
  Step-decreases (wait_node i e) s over = absurd (cc)
  Step-decreases {u} (end_decoder i e) s over =
      let e : node_steps u.decoder ≡ 1 = rw i refl in (omega arith, over)
  Step-decreases {u} (take_product message i g) s over =
      let e : message_steps u.storer ≡ 2 = rw i refl in
      (omega (arith, fewer u.prq message s.messages s.prq_holds g), over)
  Step-decreases {u} (send_product message b) s over =
      let e : message_steps u.storer ≡ 3 = rw b refl in (omega arith, over)
  Step-decreases {u} (miss_product i g) s over =
      let e : message_steps u.storer ≡ 2 = rw i refl in (omega arith, over)
  Step-decreases (wait_product i e) s over = absurd (cc)
  Step-decreases {u} (end_storer i e) s over =
      let e : message_steps u.storer ≡ 1 = rw i refl in (omega arith, over)

  Reach-bounded :
      {u v : State} (r : Reach makes u v)
      → IsSound u
      → u.execution_ends ≡ true
      → (steps makes r + steps_left v ≤ steps_left u) × (v.execution_ends ≡ true)
  unfolding steps
  Reach-bounded here s over = (omega arith, over)
  Reach-bounded (then r step) s over =
      let (bound, over') = Reach-bounded r s over in
      let (less, over'') = Step-decreases step (Reach-IsSound makes prints r s) over' in
      (omega arith, over'')

  module _ (answers : (node : ProductNode) → (m : Made) × makes node m)
      (alive : (node : ProductNode) → ¬ makes node crashes) (u : State)
      (over : u.execution_ends ≡ true) where
    abbrev Moves : Type 0
    Moves = (w : State) × Step makes u w

    work-Moves : (node : ProductNode) (m : Made) → u.decoder ≡ busy node → makes node m → Moves
    work-Moves node nothing b e = (_, skip_node node b e)
    work-Moves node crashes b e = absurd (alive node e)
    work-Moves node (queued none) b e = absurd (prints node e)
    work-Moves node (queued (some message)) b e = (_, queue_product node message b e)

    look-Moves : (o : Option ProductNode) → u.decoder ≡ idle → (sf_queue_get u.idq).0 ≡ o → Moves
    look-Moves none i e = (_, miss_node i e)
    look-Moves (some node) i e = (_, take_node node i e)

    decoder-Moves : (d : Thread ProductNode) → u.decoder ≡ d → (u.decoder ≡ ended) ⊎ Moves
    decoder-Moves idle e = inr (look-Moves _ e refl)
    decoder-Moves starved e = inr (_, end_decoder e over)
    decoder-Moves ended e = inl e
    decoder-Moves (busy node) e = inr (work-Moves node (answers node).0 e (answers node).1)

    fetch-Moves : (o : Option Bytes) → u.storer ≡ idle → (sf_queue_get u.prq).0 ≡ o → Moves
    fetch-Moves none i e = (_, miss_product i e)
    fetch-Moves (some message) i e = (_, take_product message i e)

    storer-Moves : (d : Thread Bytes) → u.storer ≡ d → (u.storer ≡ ended) ⊎ Moves
    storer-Moves idle e = inr (fetch-Moves _ e refl)
    storer-Moves starved e = inr (_, end_storer e over)
    storer-Moves ended e = inl e
    storer-Moves (busy message) e = inr (_, send_product message e)

    ended-or-Moves : ((u.decoder ≡ ended) × (u.storer ≡ ended)) ⊎ Moves
    ended-or-Moves = elim (decoder-Moves _ refl) [
      | inr move ↦ inr move
      | inl d ↦ elim (storer-Moves _ refl) [ inr move ↦ inr move | inl s ↦ inl (d, s) ]
    ]

  -- Let the scan be over, and let sf_decoder always be able to make something of a node, crash at
  -- none, and let cJSON print what was built. Then, whatever it makes of a node each time, the threads
  -- make at most `steps_left` steps, not counting the passes that fail to send, whatever order they
  -- run in, and until both have ended one of them can make a step.
  pub Reach-ends :
      {u v : State} (r : Reach makes u v)
      → ((node : ProductNode) → (m : Made) × makes node m)
      → ((node : ProductNode) → ¬ makes node crashes)
      → IsSound u
      → u.execution_ends ≡ true
      → (steps makes r ≤ steps_left u)
        × (((v.decoder ≡ ended) × (v.storer ≡ ended)) ⊎ (w : State) × Step makes v w)
  Reach-ends {u} {v} r answers alive s over =
      let (bound, over') = Reach-bounded r s over in
      (omega arith, ended-or-Moves answers alive v over')
