-- ===== src/Reader/Start/Queues.antt =====
-- With which queues the threads are started.
use smart_fridge.Prelude.{
  ℕ, zero, suc, ◌≡◌, refl, ap, ◌∙◌, Bytes, Option, none, some, List, [], ◌∷◌, Bool, true, codes,
  if◌then◌else◌, arith, ◌⊎◌, inl, inr,
}
use smart_fridge.Prelude.Int.{ℤ, pos, eq_ℤ, ◌≤ℤ◌}
use smart_fridge.Prelude.Number.{to_int}
use smart_fridge.Queue.{Queue, sf_queue_set}
use smart_fridge.Queue.Holds.{Holds}
use smart_fridge.Queue.Add.{set-Holds}
use smart_fridge.Decoder.{ProductNode}
use smart_fridge.Config.{YamlState, ReaderConf, DbConf, cleared_reader, cleared_db}
use smart_fridge.Config.Reader.Document.{Block, assign_blocks}
use smart_fridge.Config.Database.Document.{Setting, assign_settings}
use smart_fridge.Config.Read.{read_reader_config, read_db_config}
use smart_fridge.Config.Read.File.{file_tokens, read_config-file}
use smart_fridge.Log.{sf_set_log_file, sf_set_node_name, sf_set_foreground}
use smart_fridge.Reader.Start.{
  foreground, Options, Reader, Main, exited, crashed, started, cleared_queue, with_queues,
  with_header, configured, reader_main,
}

-- A size that `sf_queue_set` takes.
abbrev pub InRange : ℤ → Type 0
InRange size = (pos 5 ≤ℤ size) × (size ≤ℤ pos 200)

abbrev pub OutOfRange : ℤ → Type 0
OutOfRange size = (size ≤ℤ pos 4) ⊎ (pos 201 ≤ℤ size)

set-ok :
    {A : Type 0} (q : Queue A) (size : ℤ)
    → InRange size
    → ((sf_queue_set q size).0 ≡ 0)
      × Holds (sf_queue_set q size).1 []
      × (pos (sf_queue_set q size).1.size ≡ size)
set-ok q size (low, high) = elim (set-Holds q size) [
  | inl (small, e) ↦ absurd (ground (arith, low, small))
  | inr (inl (large, e)) ↦ absurd (ground (arith, high, large))
  | inr (inr (l, h, r, k, e)) ↦ (r, k, e)
]

set-refused :
    {A : Type 0} (q : Queue A) (size : ℤ)
    → OutOfRange size
    → (n : ℕ) × ((sf_queue_set q size).0 ≡ suc n)
set-refused q size out = elim (set-Holds q size) [
  | inl (small, e) ↦ (0, rw e)
  | inr (inl (large, e)) ↦ (1, rw e)
  | inr (inr (l, h, r, k, e)) ↦ absurd (ground (arith, out, l, h))
]

with_queues-started :
    (o : Options) (conf : ReaderConf) (d : DbConf) (header : Bytes) (i : ℕ × Queue ProductNode)
    (p : ℕ × Queue Bytes)
    → i.0 ≡ 0
    → p.0 ≡ 0
    → with_queues o conf d header true i p
      ≡ started (record {
        options = o;
        conf = conf;
        header = header;
        int_address = d.internal_address;
        int_port = to_int (pos d.internal_port);
        idq = i.1;
        prq = p.1;
      })
unfolding with_queues
with_queues-started o conf d header (zero, idq) (zero, prq) e f = refl
with_queues-started o conf d header (zero, idq) (suc n, prq) e f = absurd (omega arith)
with_queues-started o conf d header (suc n, idq) (p, prq) e f = absurd (omega arith)

with_queues-exited :
    (o : Options) (conf : ReaderConf) (d : DbConf) (header : Bytes) (threads : Bool)
    (i : ℕ × Queue ProductNode) (p : ℕ × Queue Bytes)
    → ((n : ℕ) × (i.0 ≡ suc n)) ⊎ ((n : ℕ) × (p.0 ≡ suc n))
    → with_queues o conf d header threads i p ≡ exited 1
unfolding with_queues
with_queues-exited o conf d header threads (suc n, idq) p e = refl
with_queues-exited o conf d header threads (zero, idq) (suc n, prq) e = refl
with_queues-exited o conf d header threads (zero, idq) (zero, prq) (inl (n, e)) =
    absurd (omega arith)
with_queues-exited o conf d header threads (zero, idq) (zero, prq) (inr (n, e)) =
    absurd (omega arith)

-- The threads run with empty queues of the sizes that the configuration says, and with its header and port.
pub record IsStarted (conf : ReaderConf) (header : Bytes) (d : DbConf) (r : Reader) : Type 0 where
  pub ids : Holds r.idq []
  pub products : Holds r.prq []
  pub id_size : pos r.idq.size ≡ conf.id_size
  pub pr_size : pos r.prq.size ≡ conf.pr_size
  pub header_set : r.header ≡ header
  pub port : r.int_port ≡ to_int (pos d.internal_port)
  pub location : r.options.log.log_file ≡ conf.log_location

module _ (state : YamlState) (sect : ℤ) (b : Block) (blocks : List Block) (s : Setting)
    (settings : List Setting) where
  abbrev conf : ReaderConf
  conf = assign_blocks (b ∷ blocks) cleared_reader

  abbrev db_conf : DbConf
  db_conf = assign_settings (s ∷ settings) cleared_db

  -- the options behind the configuration
  abbrev final : Options → Bytes → Options
  final o log_file = record o {
    log = sf_set_log_file conf.log_location (
        sf_set_log_file (some log_file)
          (sf_set_node_name (codes "reader") (sf_set_foreground o.log)));
    foreground_mode = true;
    socket_mode_port = if eq_ℤ o.socket_mode_port (pos 0) then pos 0 else conf.socket_mode_port;
  }

  -- `main` in foreground mode on this file
  abbrev pub on_file : Options → Bool → Bytes → Bool → Main
  on_file o child log_file threads =
      reader_main (foreground ∷ []) o child log_file
        (read_reader_config state sect (some (file_tokens (b ∷ blocks) (s ∷ settings))))
        (read_db_config state sect (some (file_tokens (b ∷ blocks) (s ∷ settings)))) threads

  main-with_header :
      (o : Options) (child threads : Bool) (log_file : Bytes)
      → on_file o child log_file threads
        ≡ with_header (final o log_file) conf db_conf db_conf.internal_header threads
  unfolding reader_main configured
  main-with_header o child threads log_file = rw (
    (read_config-file state sect b blocks s settings).0,
    (read_config-file state sect b blocks s settings).1,
  )

  -- In foreground mode, on a well-formed file that holds a block `reader`, behind it a block
  -- `database`, and nothing else, each with at least one section, where `reader` holds only sections
  -- and keys that its loader knows, each key with a text, and each section of `database` is known and
  -- holds exactly the one key meant for it (`internal`, or `location` in `logs`), let the settings set
  -- a header and the threads be created. If both sizes are from 5 to 200, the threads run with empty
  -- queues of these sizes, and with the header, the port, narrowed to `int`, and the location of the
  -- logs that the file says.
  pub reader_main-IsStarted :
      (o : Options) (child : Bool) (log_file header : Bytes)
      → db_conf.internal_header ≡ some header
      → InRange conf.id_size
      → InRange conf.pr_size
      → (r : Reader) × (on_file o child log_file true ≡ started r) × IsStarted conf header db_conf r
  unfolding sf_set_log_file
  reader_main-IsStarted o child log_file header set ids products =
      let (i0, i_holds, i_size) = set-ok {A = ProductNode} cleared_queue conf.id_size ids in
      let (p0, p_holds, p_size) = set-ok {A = Bytes} cleared_queue conf.pr_size products in
      (
        record {
          options = final o log_file;
          conf = conf;
          header = header;
          int_address = db_conf.internal_address;
          int_port = to_int (pos db_conf.internal_port);
          idq = (sf_queue_set cleared_queue conf.id_size).1;
          prq = (sf_queue_set cleared_queue conf.pr_size).1;
        },
        main-with_header o child true log_file
            ∙ ap (λ h. with_header (final o log_file) conf db_conf h true) set
            ∙ with_queues-started (final o log_file) conf db_conf header
                (sf_queue_set cleared_queue conf.id_size) (sf_queue_set cleared_queue conf.pr_size)
                i0 p0,
        record {
          ids = i_holds;
          products = p_holds;
          id_size = i_size;
          pr_size = p_size;
          header_set = refl;
          port = refl;
          location = refl;
        },
      )

  abbrev pub refusal : Option Bytes → Main
  refusal none = crashed
  refusal (some header) = exited 1

  -- In foreground mode, on a well-formed file that holds a block `reader`, behind it a block
  -- `database`, and nothing else, each with at least one section, where `reader` holds only sections
  -- and keys that its loader knows, each key with a text, and each section of `database` is known and
  -- holds exactly the one key meant for it (`internal`, or `location` in `logs`): if one of the sizes
  -- is below 5 or above 200, `main` exits with 1 if the settings set a header, and reads through NULL
  -- if they do not.
  pub reader_main-refusal :
      (o : Options) (child threads : Bool) (log_file : Bytes)
      → OutOfRange conf.id_size ⊎ OutOfRange conf.pr_size
      → on_file o child log_file threads ≡ refusal db_conf.internal_header
  reader_main-refusal o child threads log_file out =
      main-with_header o child threads log_file ∙ by_header db_conf.internal_header
    where
      refused :
          OutOfRange conf.id_size ⊎ OutOfRange conf.pr_size
          → ((n : ℕ) × ((sf_queue_set {A = ProductNode} cleared_queue conf.id_size).0 ≡ suc n))
            ⊎ ((n : ℕ) × ((sf_queue_set {A = Bytes} cleared_queue conf.pr_size).0 ≡ suc n))
      refused (inl x) = inl (set-refused cleared_queue conf.id_size x)
      refused (inr x) = inr (set-refused cleared_queue conf.pr_size x)

      by_header :
          (h : Option Bytes) → with_header (final o log_file) conf db_conf h threads ≡ refusal h
      by_header none = refl
      by_header (some header) =
          with_queues-exited (final o log_file) conf db_conf header threads _ _ (refused out)
