-- ===== src/Messages/Written.antt =====
-- The calls of both programs, and the lines that they leave in the log.
use smart_fridge.Prelude.{
  ℕ, ◌≡◌, refl, ◌∙◌, ap, Bytes, Option, none, some, List, [], ◌∷◌, Bool, true, false, not, is_some,
  map, if◌then◌else◌, arith, Bool-cases, inl, inr,
}
use mathlib.Core.Path.{fun_ext}
use smart_fridge.Prelude.Int.{pos, eq_ℤ, ltb_ℤ}
use smart_fridge.Log.{Log, IndTag, error, warning, info, debug1, debug2, Date, sf_log, sf_call}
use smart_fridge.Log.Lines.{
  Entry, Fits, AllFit, wanted, run, and_then, with_lines, line_of, run-lines,
}
use smart_fridge.Messages.{format, Argument, print_format}
use smart_fridge.Messages.Conversions.{has_null, Called, print_format-defined}
use smart_fridge.Messages.Reader.{ReaderCall}
use smart_fridge.Messages.Reader as Reader
use smart_fridge.Messages.Daemon.{DaemonCall}
use smart_fridge.Messages.Daemon as Daemon
use smart_fridge.Messages.Tools.{ToolCall}
use smart_fridge.Messages.Tools as Tools

pub data Process : Type 0 where
  the_reader the_daemon : Process

-- The calls of a process; those of src/tools are made in both.
pub data Call : Process → Type 0 where
  reader : ReaderCall → Call the_reader
  daemon : DaemonCall → Call the_daemon
  tools : {p : Process} → ToolCall → Call p

abbrev pub called : {p : Process} → Call p → Called
called (reader c) = Reader.called c
called (daemon c) = Daemon.called c
called (tools c) = Tools.called c

abbrev pub arguments : {p : Process} → Call p → List Argument
arguments c = (called c).2

abbrev pub text_of : {p : Process} → Call p → Option Bytes
text_of c = print_format (format (called c).1) (arguments c)

-- Each call of the log functions gives the arguments that the format of its message reads, so that what is printed is defined exactly if no text that it is given is NULL.
pub text_of-defined :
    {p : Process} (c : Call p) → is_some (text_of c) ≡ not (has_null (arguments c))
text_of-defined (reader c) =
    print_format-defined (format (Reader.called c).1) (Reader.called c).2 (Reader.reads c)
text_of-defined (daemon c) =
    print_format-defined (format (Daemon.called c).1) (Daemon.called c).2 (Daemon.reads c)
text_of-defined (tools c) =
    print_format-defined (format (Tools.called c).1) (Tools.called c).2 (Tools.reads c)

-- Whether the message is printed, which DEBUG1 and DEBUG2 depend on.
abbrev pub is_written : IndTag → Log → Bool
is_written debug1 l = not (eq_ℤ l.debug_level (pos 0))
is_written debug2 l = ltb_ℤ (pos 1) l.debug_level
is_written _ l = true

abbrev pub log_text : Option Bytes → Bool → Date → IndTag → Log → Option Log
log_text none opens date ind l = none
log_text (some msg) opens date ind l = sf_log opens date ind msg l

-- A call with its arguments; `none` where printing them is undefined, or the line cannot be written.
abbrev pub log_call : {p : Process} → Bool → Date → Call p → Log → Option Log
log_call opens date c l =
    if is_written (called c).0 l then log_text (text_of c) opens date (called c).0 l else some l

-- Whether the call is one of `sf_exit_error`, which ends the process.
abbrev pub reader_exits : ReaderCall → Bool
reader_exits (Reader.bind_failed port) = true
reader_exits Reader.no_key_handler = true
reader_exits (Reader.no_device device) = true
reader_exits Reader.no_test_file = true
reader_exits Reader.no_configuration = true
reader_exits (Reader.size_too_small kind size) = true
reader_exits (Reader.size_too_large kind size) = true
reader_exits Reader.no_threads = true
reader_exits _ = false

abbrev pub daemon_exits : DaemonCall → Bool
daemon_exits Daemon.no_configuration = true
daemon_exits _ = false

abbrev pub exits : {p : Process} → Call p → Bool
exits (reader c) = reader_exits c
exits (daemon c) = daemon_exits c
exits (tools c) = false

-- The calls that a process would make, each with its time, up to one that ends it.
unfoldable pub log_calls : {p : Process} → List (Date × Call p) → Log → Option Log
log_calls [] l = some l
log_calls ((date, c) ∷ calls) l =
    and_then (log_call true date c l) (λ l'. if exits c then some l' else log_calls calls l')

-- The calls that are made.
unfoldable pub reached : {p : Process} → List (Date × Call p) → List (Date × Call p)
reached [] = []
reached ((date, c) ∷ calls) = let rest = reached calls in (date, c) ∷ (if exits c then [] else rest)

-- What the calls print, where it is defined.
pub data Prints {p : Process} : List (Date × Call p) → List Entry → Type 0 where
  no_more : Prints [] []
  prints :
      {date : Date} {c : Call p} {calls : List (Date × Call p)} {msg : Bytes} {lines : List Entry}
      → text_of c ≡ some msg
      → Prints calls lines
      → Prints ((date, c) ∷ calls) ((date, (called c).0, msg) ∷ lines)

written-call :
    (ind : IndTag) (msg : Bytes) (date : Date) (l : Log)
    → (if is_written ind l then sf_log true date ind msg l else some l)
      ≡ sf_call true date ind msg l
unfolding sf_call
written-call error msg date l = refl
written-call warning msg date l = refl
written-call info msg date l = refl
written-call debug1 msg date l = refl
written-call debug2 msg date l = refl

one-run :
    {p : Process} (date : Date) (c : Call p) (msg : Bytes) (l : Log) (next next' : Log → Option Log)
    → text_of c ≡ some msg
    → ((l' : Log) → next l' ≡ next' l')
    → and_then (log_call true date c l) next ≡ and_then (sf_call true date (called c).0 msg l) next'
one-run date c msg l next next' e h =
    rw (e, written-call (called c).0 msg date l)
      (ap (and_then (sf_call true date (called c).0 msg l)) (fun_ext h))

-- Each call that is made finds its header in the buffer and no text that is NULL.
abbrev pub AllGiven : {p : Process} → Bytes → List (Date × Call p) → Type 0
AllGiven node_name [] = Unit
AllGiven node_name ((date, c) ∷ calls) =
    (has_null (arguments c) ≡ false) × Fits date node_name × AllGiven node_name calls

defined :
    (o : Option Bytes) (null : Bool)
    → is_some o ≡ not null
    → null ≡ false
    → (msg : Bytes) × (o ≡ some msg)
defined none null e f = absurd (ground arith)
defined (some msg) null e f = (msg, refl)

-- What is printed by the calls that are made, and that they do no more than that.
Written : {p : Process} → Bytes → List (Date × Call p) → Type 0
Written node_name calls =
    (lines : List Entry) × Prints (reached calls) lines
    × AllFit node_name lines
    × ((l : Log) → log_calls calls l ≡ run lines l)

one-Written :
    {p : Process} (node_name : Bytes) (date : Date) (c : Call p) (calls : List (Date × Call p))
    (msg : Bytes)
    → text_of c ≡ some msg
    → Fits date node_name
    → (exits c ≡ false → Written node_name calls)
    → Written node_name ((date, c) ∷ calls)
unfolding Written log_calls reached run
one-Written node_name date c calls msg e fit rest = elim (Bool-cases (exits c)) [
  | inl ends ↦ (
    (date, (called c).0, msg) ∷ [],
    rw ends (prints e no_more),
    (fit, tt),
    λ l. rw ends (one-run date c msg l _ _ e (λ l'. refl)),
  )
  | inr on ↦
      let (lines, p, fits, h) = rest on in
      (
        (date, (called c).0, msg) ∷ lines,
        rw on (prints e p),
        (fit, fits),
        λ l. rw on (one-run date c msg l _ _ e h),
      )
]

all-Written :
    {p : Process} (node_name : Bytes) (calls : List (Date × Call p))
    → AllGiven node_name (reached calls)
    → Written node_name calls
unfolding Written log_calls reached run
all-Written node_name [] g = ([], no_more, tt, λ l. refl)
all-Written node_name ((date, c) ∷ calls) (g, fit, gs) =
    let (msg, e) = defined (text_of c) (has_null (arguments c)) (text_of-defined c) g in
    one-Written node_name date c calls msg e fit (λ on. all-Written node_name calls (rw on at gs))

-- At the debug level `n`, where a log file is set that can be opened, let one of the two processes
-- make calls of the log functions, each at a time of its own, and let each call up to the first one of
-- sf_exit_error be given no text that is NULL and find room in the buffer for its header. Then each of
-- these calls prints a message, those behind it are not made, and the messages of errors, warnings and
-- information, of DEBUG1 from the level 1 on and of DEBUG2 from the level 2 on are written, in order
-- and with the time of their calls, to the file, and to the standard output in foreground mode.
pub log_calls-lines :
    {p : Process} (file : Bytes) (n : ℕ) (calls : List (Date × Call p)) (l : Log)
    → AllGiven l.node_name (reached calls)
    → l.debug_level ≡ pos n
    → l.log_file ≡ some file
    → (lines : List Entry) × Prints (reached calls) lines
      × (log_calls calls l ≡ some (with_lines file l (map (line_of l.node_name) (wanted n lines))))
unfolding Written
log_calls-lines file n calls l given level named =
    let (lines, p, fits, h) = all-Written l.node_name calls given in
    (lines, p, h l ∙ run-lines file n lines l level named fits)
