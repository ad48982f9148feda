-- ===== src/Log.antt =====
-- tools/log.c and include/log.h: which calls yield a line, and what the line is. The arguments of a
-- message are put in by `vsnprintf`, so a call is given its text.
pub mod Lines
mod Tests
use smart_fridge.Prelude.{
  ℕ, zero, suc, ◌+◌, ◌-◌, ◌/◌, ◌%◌, Bytes, codes, Option, none, some, List, [], ◌∷◌, ◌++◌, Bool,
  true, false, ltb, ◌==◌, if◌then◌else◌, length, take, not,
}
use smart_fridge.Prelude.Int.{ℤ, pos, negsuc, eq_ℤ, ltb_ℤ, ◌+ℤ◌}

abbrev pub log_size : ℕ
log_size = 65536

-- `enum ind_tag`
pub data IndTag : Type 0 where
  error warning info debug1 debug2 : IndTag

abbrev pub msg_tag : IndTag → Bytes
msg_tag error = codes "ERROR"
msg_tag warning = codes "WARNING"
msg_tag info = codes "INFO"
msg_tag debug1 = codes "DEBUG1"
msg_tag debug2 = codes "DEBUG2"

-- The static variables, and the lines that went to the standard output and to files.
pub record Log : Type 0 where
  pub debug_level : ℤ
  pub foreground : Bool
  pub log_file : Option Bytes
  pub node_name : Bytes
  pub printed : List Bytes
  pub appended : List (Bytes × Bytes)

-- What `localtime_r` yields, with the year and the month as they are printed.
pub record Date : Type 0 where
  pub year : ℕ
  pub month : ℕ
  pub day : ℕ
  pub hour : ℕ
  pub minute : ℕ
  pub second : ℕ

-- `%d`, of a number with at most `fuel` digits
unfoldable pub decimal : ℕ → ℕ → Bytes
decimal zero n = []
decimal (suc fuel) n =
    let rest = decimal fuel (n / 10) in
    if ltb n 10 then (b'0' + n) ∷ [] else rest ++ (b'0' + n % 10) ∷ []

unfoldable pub two_digits : ℕ → Bytes
unfolding decimal
two_digits n = if ltb n 10 then b'0' ∷ decimal 20 n else decimal 20 n

-- LOG_FORMAT
unfoldable pub log_header : Date → Bytes → IndTag → Bytes
unfolding two_digits
log_header date node_name ind =
    decimal 20 date.year
    ++ b'/' ∷ two_digits date.month
    ++ b'/' ∷ two_digits date.day
    ++ b' ' ∷ two_digits date.hour
    ++ b':' ∷ two_digits date.minute
    ++ b':' ∷ two_digits date.second
    ++ codes " ["
    ++ node_name
    ++ codes "]["
    ++ msg_tag ind
    ++ codes "] -> "

unfoldable pub sf_set_log_file : Option Bytes → Log → Log
sf_set_log_file file l = record l { log_file = file }

pub sf_set_node_name : Bytes → Log → Log
sf_set_node_name name l = record l { node_name = name }

-- `debug_level` is a `char` with a sign.
pub sf_set_debug : Log → Log
sf_set_debug l = record l {
  debug_level = if eq_ℤ l.debug_level (pos 127) then negsuc 127 else l.debug_level +ℤ pos 1;
}

pub sf_set_foreground : Log → Log
sf_set_foreground l = record l { foreground = true }

-- The contents of `log_msg`; `none` where a header that is longer than the buffer makes the second
-- `vsnprintf` write behind it.
pub log_line : Bytes → Bytes → Option Bytes
log_line header msg =
    if ltb log_size (length header)
    then none
    else some (take (log_size - 1) header ++ take (log_size - 1 - length header) msg)

-- `fopen` with the name that is set, and the line if it succeeds; NULL is no name.
pub append_line : Bool → Option Bytes → Bytes → Log → Option Log
append_line opens none line l = none
append_line opens (some file) line l =
    some (if opens then record l { appended = l.appended ++ (file, line) ∷ [] } else l)

abbrev pub write_line : Bool → Option Bytes → Log → Option Log
write_line opens none l = none
write_line opens (some line) l =
    append_line opens l.log_file line
      (record l { printed = if l.foreground then l.printed ++ line ∷ [] else l.printed })

-- `none` is a write out of bounds, or `fopen` of NULL.
pub sf_log : Bool → Date → IndTag → Bytes → Log → Option Log
unfolding log_line append_line
sf_log opens date ind msg l = write_line opens (log_line (log_header date l.node_name ind) msg) l

-- `sf_error`, `sf_warn`, `sf_info`, `sf_debug1` and `sf_debug2`.
unfoldable pub sf_call : Bool → Date → IndTag → Bytes → Log → Option Log
unfolding sf_log
sf_call opens date debug1 msg l =
    if not (eq_ℤ l.debug_level (pos 0)) then sf_log opens date debug1 msg l else some l
sf_call opens date debug2 msg l =
    if ltb_ℤ (pos 1) l.debug_level then sf_log opens date debug2 msg l else some l
sf_call opens date ind msg l = sf_log opens date ind msg l

-- The line, and the status with which the process ends.
pub sf_exit_error : Bool → Date → Bytes → Log → Option (ℕ × Log)
unfolding sf_log
sf_exit_error opens date msg l = elim (sf_log opens date error msg l) [
  | none ↦ none
  | some l' ↦ some (1, l')
]
