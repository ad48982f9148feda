-- ===== src/Reader/Start/Run.antt =====
-- The threads behind the start of `main`: their first state, and what holds from there on.
use smart_fridge.Prelude.{
  ℕ, zero, suc, ◌≡◌, refl, Bytes, Option, none, some, List, [], ◌++◌, Bool, true, false, inl, inr,
  if◌then◌else◌,
}
use smart_fridge.Prelude.Int.{ℤ}
use mathlib.Core.List.{Perm}
use mathlib.Core.Path.{subst}
use smart_fridge.Config.{ReaderConf, DbConf}
use smart_fridge.Queue.{Queue, sf_queue_set}
use smart_fridge.Queue.Holds.{Holds}
use smart_fridge.Queue.Add.{set-Holds}
use smart_fridge.Decoder.{ProductNode}
use smart_fridge.Reader.Codes.{Made}
use smart_fridge.Reader.Threads.{idle, State, Reach, Prints}
use smart_fridge.Reader.Threads.Safety.{IsSound, Reach-IsSound}
use smart_fridge.Reader.Threads.Conserved.{sent, refused, left}
use smart_fridge.Reader.Threads.Nodes.{scanned, done, left_nodes}
use smart_fridge.Reader.Threads.Accounts.{Yields, made, Reach-Accounts}
use smart_fridge.Reader.Start.{
  ReaderOption, Options, Reader, Main, returned, exited, crashed, started, cleared_queue,
  with_queues, with_header, configured, named, forked, with_options, reader_options, reader_main,
}

-- Behind `pthread_create`.
abbrev pub threads_of : Reader → State
threads_of r = record {
  idq = r.idq;
  prq = r.prq;
  execution_ends = false;
  decoder = idle;
  storer = idle;
}

-- Both queues are empty if `main` starts its threads.
abbrev AllEmpty : Main → Type 0
AllEmpty (started r) = Holds r.idq [] × Holds r.prq []
AllEmpty (returned n) = Unit
AllEmpty (exited n) = Unit
AllEmpty crashed = Unit

set-empty :
    {A : Type 0} (size : ℤ)
    → (sf_queue_set (cleared_queue {A = A}) size).0 ≡ 0
    → Holds (sf_queue_set (cleared_queue {A = A}) size).1 []
set-empty {A} size zero_result = elim (set-Holds (cleared_queue {A = A}) size) [
  | inl (small, e) ↦ absurd (cc)
  | inr (inl (large, e)) ↦ absurd (cc)
  | inr (inr (l, h, r, k, e)) ↦ k
]

with_queues-AllEmpty :
    (o : Options) (conf : ReaderConf) (d : DbConf) (header : Bytes) (threads : Bool)
    (i : ℕ × Queue ProductNode) (p : ℕ × Queue Bytes)
    → (i.0 ≡ 0 → Holds i.1 [])
    → (p.0 ≡ 0 → Holds p.1 [])
    → AllEmpty (with_queues o conf d header threads i p)
unfolding with_queues
with_queues-AllEmpty o conf d header threads (suc n, idq) p hi hp = tt
with_queues-AllEmpty o conf d header threads (zero, idq) (suc n, prq) hi hp = tt
with_queues-AllEmpty o conf d header false (zero, idq) (zero, prq) hi hp = tt
with_queues-AllEmpty o conf d header true (zero, idq) (zero, prq) hi hp = (hi refl, hp refl)

with_header-AllEmpty :
    (o : Options) (conf : ReaderConf) (d : DbConf) (header : Option Bytes) (threads : Bool)
    → AllEmpty (with_header o conf d header threads)
with_header-AllEmpty o conf d none threads = tt
with_header-AllEmpty o conf d (some header) threads =
    with_queues-AllEmpty o conf d header threads (sf_queue_set cleared_queue conf.id_size)
      (sf_queue_set cleared_queue conf.pr_size) (set-empty conf.id_size) (set-empty conf.pr_size)

configured-AllEmpty :
    (o : Options) (config : Option (ℕ × Option ReaderConf)) (db : Option (ℕ × Option DbConf))
    (threads : Bool)
    → AllEmpty (configured o config db threads)
unfolding configured
configured-AllEmpty o none db threads = tt
configured-AllEmpty o (some (suc n, config)) db threads = tt
configured-AllEmpty o (some (zero, config)) none threads = tt
configured-AllEmpty o (some (zero, config)) (some (suc n, db)) threads = tt
configured-AllEmpty o (some (zero, none)) (some (zero, db)) threads = tt
configured-AllEmpty o (some (zero, some conf)) (some (zero, none)) threads = tt
configured-AllEmpty o (some (zero, some conf)) (some (zero, some db)) threads =
    with_header-AllEmpty _ conf db db.internal_header threads

forked-AllEmpty : (child : Bool) (m : Main) → AllEmpty m → AllEmpty (forked child m)
forked-AllEmpty true m e = e
forked-AllEmpty false m e = tt

with_options-AllEmpty :
    (o : Option Options) (child : Bool) (log_file : Bytes) (config : Option (ℕ × Option ReaderConf))
    (db : Option (ℕ × Option DbConf)) (threads : Bool)
    → AllEmpty (with_options o child log_file config db threads)
with_options-AllEmpty none child log_file config db threads = tt
with_options-AllEmpty (some o) child log_file config db threads =
    forked-AllEmpty (if o.foreground_mode then true else child) _
      (configured-AllEmpty (named log_file o) config db threads)

-- Let `main` start its threads, and let cJSON print what was built. Then, under every interleaving of
-- the threads, and whatever sf_decoder makes of a node each time, both tables go on standing for
-- lists, a thread has ended only if the scan is over; the nodes that were put into the queue are, up
-- to order, those that are done and those with the decoder thread or in its queue; each done node has
-- yielded one of the messages that can be made of it, or nothing; and these messages are, up to order,
-- those sent, those with the storer thread or in its queue, and those dropped at a full queue.
pub main-Accounts :
    (makes : ProductNode → Made → Type 0) (prints : Prints makes) (options : List ReaderOption)
    (o : Options) (child : Bool) (log_file : Bytes) (config : Option (ℕ × Option ReaderConf))
    (config_db : Option (ℕ × Option DbConf)) (threads : Bool) (reader : Reader) {v : State}
    → reader_main options o child log_file config config_db threads ≡ started reader
    → (r : Reach makes (threads_of reader) v)
    → (s : IsSound v) × Perm (scanned makes r) (done makes r ++ left_nodes makes v s.nodes)
      × Yields makes (done makes r) (made makes r)
      × Perm (made makes r) ((sent makes r ++ left makes v s.messages) ++ refused makes r)
unfolding reader_main
main-Accounts makes prints options o child log_file config config_db threads reader {v} e r =
    let (ids, products) : AllEmpty (started reader) =
      subst AllEmpty e (
        with_options-AllEmpty (reader_options options o) child log_file config config_db threads) in
    let (nodes, messages, in_idq, in_prq, from, yielded, accounts) =
      Reach-Accounts makes prints r refl refl ids products in
    let sound : IsSound (threads_of reader) = record {
      nodes = [];
      messages = [];
      idq_holds = ids;
      prq_holds = products;
      decoder_over = λ d. cc;
      storer_over = λ d. cc;
    } in
    let kept = Reach-IsSound makes prints r sound in
    (
      record {
        nodes = nodes;
        messages = messages;
        idq_holds = in_idq;
        prq_holds = in_prq;
        decoder_over = kept.decoder_over;
        storer_over = kept.storer_over;
      },
      from,
      yielded,
      accounts,
    )
