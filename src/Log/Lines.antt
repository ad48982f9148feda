-- ===== src/Log/Lines.antt =====
-- Which lines a sequence of calls leaves.
use smart_fridge.Prelude.{
  ℕ, zero, suc, ◌+◌, ◌-◌, ◌≤◌, ◌<◌, ◌≡◌, refl, sym, ap, ◌∙◌, Bytes, Option, none, some, List, [],
  ◌∷◌, ◌++◌, Bool, true, false, if◌then◌else◌, arith, length, take, take-le, append_assoc,
  append-nil, map, Bool-cases, inl, inr, ltb,
}
use smart_fridge.Prelude.Int.{pos, eq_ℤ, ltb_ℤ, ◌+ℤ◌}
use smart_fridge.Log.{
  Log, IndTag, error, warning, info, debug1, debug2, Date, log_header, log_line, append_line,
  sf_set_debug, sf_log, sf_call,
}

-- The number of `sf_set_debug` from which on a kind of message is written.
abbrev pub level : IndTag → ℕ
level debug1 = 1
level debug2 = 2
level _ = 0

pub times_debug : ℕ → Log → Log
times_debug zero l = l
times_debug (suc n) l = times_debug n (sf_set_debug l)

-- A call: when it is made, its kind and its text.
abbrev pub Entry : Type 0
Entry = Date × IndTag × Bytes

abbrev pub unless : Bool → Entry → List Entry → List Entry
unless true call rest = rest
unless false call rest = call ∷ rest

unfoldable pub wanted : ℕ → List Entry → List Entry
wanted n [] = []
wanted n (call ∷ calls) = unless (ltb n (level call.1)) call (wanted n calls)

-- The line of a call, cut to the buffer.
abbrev pub line_of : Bytes → Entry → Bytes
line_of node_name (date, ind, msg) =
    let header = log_header date node_name ind in header ++ take (65535 - length header) msg

abbrev pub and_then : Option Log → (Log → Option Log) → Option Log
and_then none next = none
and_then (some l) next = next l

unfoldable pub run : List Entry → Log → Option Log
run [] l = some l
run ((date, ind, msg) ∷ calls) l = and_then (sf_call true date ind msg l) (λ l'. run calls l')

-- The log with these lines more.
abbrev pub with_lines : Bytes → Log → List Bytes → Log
with_lines file l lines = record l {
  printed = if l.foreground then l.printed ++ lines else l.printed;
  appended = l.appended ++ map (λ line. (file, line)) lines;
}

map-append : {A B : Type 0} (f : A → B) (xs ys : List A) → map f (xs ++ ys) ≡ map f xs ++ map f ys
map-append f [] ys = refl
map-append f (x ∷ xs) ys = ap (λ l. f x ∷ l) (map-append f xs ys)

append_if :
    (b : Bool) (xs ys zs : List Bytes)
    → (if b then (if b then xs ++ ys else xs) ++ zs else (if b then xs ++ ys else xs))
      ≡ (if b then xs ++ (ys ++ zs) else xs)
append_if true xs ys zs = append_assoc xs ys zs
append_if false xs ys zs = refl

with_lines-append :
    (file : Bytes) (l : Log) (a b : List Bytes)
    → with_lines file (with_lines file l a) b ≡ with_lines file l (a ++ b)
with_lines-append file l a b = rw (
  append_if l.foreground l.printed a b,
  map-append {B = Bytes × Bytes} (λ line. (file, line)) a b,
  append_assoc l.appended (map (λ line. (file, line)) a) (map (λ line. (file, line)) b),
)

append_if_none : (b : Bool) (xs : List Bytes) → (if b then xs ++ [] else xs) ≡ xs
append_if_none true xs = append-nil xs
append_if_none false xs = refl

with_lines-none : (file : Bytes) (l : Log) → with_lines file l [] ≡ l
with_lines-none file l = rw (append_if_none l.foreground l.printed, append-nil l.appended)

-- every header fits into the buffer
abbrev pub Fits : Date → Bytes → Type 0
Fits date node_name = (ind : IndTag) → length (log_header date node_name ind) ≤ 65535

-- at the time of each call
abbrev pub AllFit : Bytes → List Entry → Type 0
AllFit node_name [] = Unit
AllFit node_name ((date, ind, msg) ∷ calls) = Fits date node_name × AllFit node_name calls

not_longer : (h : Bytes) → length h ≤ 65535 → ltb 65536 (length h) ≡ false
not_longer h k = ground arith

never : (n : ℕ) → ltb n 0 ≡ false
never n = ground arith

module _ (file : Bytes) where
  sf_log-lines :
      (date : Date) (ind : IndTag) (msg : Bytes) (l : Log)
      → l.log_file ≡ some file
      → Fits date l.node_name
      → sf_log true date ind msg l
        ≡ some (with_lines file l (line_of l.node_name (date, ind, msg) ∷ []))
  unfolding sf_log log_line append_line
  sf_log-lines date ind msg l named fits =
      rw (not_longer _ (fits ind), take-le 65535 _ (fits ind), named)

  abbrev lines : ℕ → Bytes → List Entry → List Bytes
  lines n node_name calls = map (line_of node_name) (wanted n calls)

  -- one call, by its kind and the level
  sf_call-lines :
      (n : ℕ) (date : Date) (ind : IndTag) (msg : Bytes) (l : Log)
      → l.debug_level ≡ pos n
      → l.log_file ≡ some file
      → Fits date l.node_name
      → sf_call true date ind msg l
        ≡ some (with_lines file l (lines n l.node_name ((date, ind, msg) ∷ [])))
  unfolding sf_call wanted
  sf_call-lines zero date debug1 msg l e named fits =
      rw off (ap some (sym (with_lines-none file l)))
    where
      off : eq_ℤ l.debug_level (pos 0) ≡ true
      off = rw e
  sf_call-lines (suc n) date debug1 msg l e named fits =
      rw (on, enough) (sf_log-lines date debug1 msg l named fits)
    where
      enough : ltb (suc n) 1 ≡ false
      enough = ground arith

      on : eq_ℤ l.debug_level (pos 0) ≡ false
      on = rw e (ground arith)
  sf_call-lines n date debug2 msg l e named fits = elim (Bool-cases (ltb n 2)) [
    | inl low ↦ rw (low, off low) (ap some (sym (with_lines-none file l)))
    | inr high ↦ rw (high, on high) (sf_log-lines date debug2 msg l named fits)
  ]
    where
      off : ltb n 2 ≡ true → ltb_ℤ (pos 1) l.debug_level ≡ false
      off h = rw e (ground arith)

      on : ltb n 2 ≡ false → ltb_ℤ (pos 1) l.debug_level ≡ true
      on h = rw e (ground arith)
  sf_call-lines n date error msg l e named fits =
      rw (never n) (sf_log-lines date error msg l named fits)
  sf_call-lines n date warning msg l e named fits =
      rw (never n) (sf_log-lines date warning msg l named fits)
  sf_call-lines n date info msg l e named fits =
      rw (never n) (sf_log-lines date info msg l named fits)

  lines-cons :
      (n : ℕ) (node_name : Bytes) (call : Entry) (calls : List Entry)
      → lines n node_name (call ∷ []) ++ lines n node_name calls ≡ lines n node_name (call ∷ calls)
  unfolding wanted
  lines-cons n node_name call calls = elim (Bool-cases (ltb n (level call.1))) [
    | inl e ↦ rw e
    | inr e ↦ rw e
  ]

  -- At the debug level `n`, where a log file is set that can be opened and the header of each call fits into the buffer, a
  -- sequence of calls writes a line for each error, warning and information, for each DEBUG1 from the level 1 on and
  -- for each DEBUG2 from the level 2 on, in order, to the file, and to the standard output in foreground mode.
  pub run-lines :
      (n : ℕ) (calls : List Entry) (l : Log)
      → l.debug_level ≡ pos n
      → l.log_file ≡ some file
      → AllFit l.node_name calls
      → run calls l ≡ some (with_lines file l (map (line_of l.node_name) (wanted n calls)))
  unfolding run wanted
  run-lines n [] l e named fits = rw (with_lines-none file l)
  run-lines n ((date, ind, msg) ∷ calls) l e named (fit, fits) =
      let first = lines n l.node_name ((date, ind, msg) ∷ []) in
      rw
        (
          sf_call-lines n date ind msg l e named fit,
          run-lines n calls (with_lines file l first) e named fits,
        )
        (ap some (
          with_lines-append file l first (lines n l.node_name calls)
          ∙ ap (with_lines file l) (lines-cons n l.node_name (date, ind, msg) calls)))

debug_once :
    (l : Log) (k : ℕ) → l.debug_level ≡ pos k → k < 127 → (sf_set_debug l).debug_level ≡ pos (suc k)
unfolding sf_set_debug ◌+ℤ◌
debug_once l k e h = rw e (ground arith)

-- From the level k, the option `d` given n times leads to the level n + k, if that is at most 127.
pub times_debug-level :
    (n k : ℕ) (l : Log)
    → l.debug_level ≡ pos k
    → n + k ≤ 127
    → (times_debug n l).debug_level ≡ pos (n + k)
unfolding times_debug
times_debug-level zero k l e h = e ∙ ap pos (omega arith)
times_debug-level (suc n) k l e h =
    times_debug-level n (suc k) (sf_set_debug l) (debug_once l k e (omega arith)) (omega arith)
    ∙ ap pos (omega arith)
