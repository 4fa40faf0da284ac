-- ===== src/Logs/Outputs.antt =====
-- The outputs of the log recorder: `LogOutput` (include/libnavajo/LogOutput.hh), `LogFile`
-- (src/LogFile.cc), `LogStdOutput` (src/LogStdOutput.cc) and `LogSyslog` (src/LogSyslog.cc).
use libnavajo.Base.{
  ℕ, ◌-◌, Bool, true, false, List, [], ◌∷◌, ◌++◌, Option, none, some, Bytes, codes, take,
}
use libnavajo.Server.Text.{c_str}

pub data NvjLogSeverity : Type 0 where
  nvj_debug nvj_info nvj_warning nvj_alert nvj_error nvj_fatal : NvjLogSeverity

-- The kinds of outputs: a file with its name, and whether it is open; standard output; the system log
-- with the identifier.
pub data OutputKind : Type 0 where
  log_file : Bytes → Bool → OutputKind
  log_std_output : OutputKind
  log_syslog : Bytes → OutputKind

-- An output with its settings and the entries that it was given, the first one first.
pub record LogOutput : Type 0 where
  pub kind : OutputKind
  pub with_date_time : Bool
  pub with_endline : Bool
  pub entries : List (NvjLogSeverity × Bytes × Bytes)

-- `LogOutput::LogOutput`
abbrev pub new_output : OutputKind → LogOutput
new_output kind = record { kind = kind; with_date_time = true; with_endline = false; entries = [] }

abbrev pub max_syslog_id_size : ℕ
max_syslog_id_size = 30

-- The constructors; `none` stands for a null pointer.
abbrev pub name_or_empty : Option Bytes → Bytes
name_or_empty none = []
name_or_empty (some f) = c_str f

abbrev pub new_log_file : Option Bytes → LogOutput
new_log_file f = new_output (log_file (name_or_empty f) false)

abbrev pub new_log_syslog : Bytes → LogOutput
new_log_syslog id = new_output (log_syslog (take (max_syslog_id_size - 1) (c_str id)))

-- `initialize`
abbrev pub initialize_kind : (Bytes → Bool) → OutputKind → LogOutput → LogOutput
initialize_kind can_open (log_file filename is_open) o = record o {
  kind = log_file filename (can_open (c_str filename));
}
initialize_kind can_open log_std_output o = o
initialize_kind can_open (log_syslog ident) o = record o { with_date_time = false }

abbrev pub initialize : (Bytes → Bool) → LogOutput → LogOutput
initialize can_open o = initialize_kind can_open o.kind o

-- Where a text goes.
pub data Target : Type 0 where
  to_file : Bytes → Target
  to_stdout to_stderr : Target
  to_syslog : Bytes → ℕ → Target

-- The colour of a severity, and the stream.
abbrev pub on_terminal : NvjLogSeverity → Target × Bytes
on_terminal nvj_debug = (to_stdout, codes "36")
on_terminal nvj_warning = (to_stdout, codes "33")
on_terminal nvj_alert = (to_stdout, codes "35")
on_terminal nvj_info = (to_stdout, codes "32")
on_terminal nvj_error = (to_stderr, codes "31")
on_terminal nvj_fatal = (to_stderr, codes "31")

-- `LOG_EMERG`, `LOG_ALERT`, `LOG_ERR`, `LOG_WARNING`, `LOG_INFO` and `LOG_DEBUG` of syslog.h.
abbrev pub syslog_type : NvjLogSeverity → ℕ
syslog_type nvj_debug = 7
syslog_type nvj_warning = 4
syslog_type nvj_alert = 1
syslog_type nvj_error = 3
syslog_type nvj_fatal = 0
syslog_type nvj_info = 6

-- `append` of an output: where a message goes, and its text.
abbrev pub printed : OutputKind → NvjLogSeverity → Bytes → Option (Target × Bytes)
printed (log_file filename false) l message = none
printed (log_file filename true) l message = some (to_file filename, message ++ codes "\n")
printed log_std_output l message = some (
  (on_terminal l).0,
  (27 ∷ codes "[")
      ++ (on_terminal l).1
      ++ codes "m"
      ++ c_str message
      ++ codes "\n"
      ++ (27 ∷ codes "[0m"),
)
printed (log_syslog ident) l message = some (to_syslog ident (syslog_type l), c_str message)
