-- ===== src/Logs.antt =====
-- The log recorder: `LogRecorder` (src/LogRecorder.cc, include/libnavajo/LogRecorder.hh) and what it
-- asks of an output (include/libnavajo/LogOutput.hh).
pub mod Outputs
mod Tests
use libnavajo.Base.{
  Bool, true, false, not, ◌||◌, List, [], ◌∷◌, ◌++◌, Option, none, some, if◌then◌else◌, Bytes,
  codes, bytes_eq, take,
}
use libnavajo.Server.Text.{c_str}
use Outputs.{NvjLogSeverity, nvj_debug, nvj_fatal, LogOutput, initialize}

abbrev pub is_debug : NvjLogSeverity → Bool
is_debug nvj_debug = true
is_debug _ = false

abbrev pub is_fatal : NvjLogSeverity → Bool
is_fatal nvj_fatal = true
is_fatal _ = false

-- `deleted` are the outputs that were deleted, the latest first.
pub record LogRecorder : Type 0 where
  pub debug_mode : Bool
  pub uniq_log : List Bytes
  pub log_outputs_list : List LogOutput
  pub deleted : List LogOutput

-- The constructor.
abbrev pub new_recorder : LogRecorder
new_recorder = record { debug_mode = false; uniq_log = []; log_outputs_list = []; deleted = [] }

abbrev pub set_debug_mode : Bool → LogRecorder → LogRecorder
set_debug_mode d r = record r { debug_mode = d }

-- `addLogOutput`, where `can_open` tells which files can be opened.
abbrev pub add_log_output : (Bytes → Bool) → LogOutput → LogRecorder → LogRecorder
add_log_output can_open output r = record r {
  log_outputs_list = r.log_outputs_list ++ (initialize can_open output ∷ []);
}

abbrev pub remove_log_outputs : LogRecorder → LogRecorder
remove_log_outputs r = record r { log_outputs_list = []; deleted = r.log_outputs_list ++ r.deleted }

-- `getInstance` and `freeInstance`, with the static pointer; the latter also gives what its destructor
-- leaves.
abbrev pub get_instance : Option LogRecorder → LogRecorder
get_instance none = new_recorder
get_instance (some r) = r

abbrev pub free_instance : Option LogRecorder → Option LogRecorder × List LogOutput
free_instance none = (none, [])
free_instance (some r) = (none, (remove_log_outputs r).deleted)

-- The entry of one output, with the text of the date.
abbrev pub append_to_output : Bytes → NvjLogSeverity → Bytes → Bytes → LogOutput → LogOutput
append_to_output date l m details o =
    let dated = if o.with_date_time then date ++ m else m in
    let msg = if o.with_endline then dated ++ codes "\n" else dated in
    record o { entries = o.entries ++ ((l, msg, details) ∷ []) }

unfoldable pub append_to_outputs :
    Bytes → NvjLogSeverity → Bytes → Bytes → List LogOutput → List LogOutput
append_to_outputs date l m details [] = []
append_to_outputs date l m details (o ∷ outputs) =
    append_to_output date l m details o ∷ append_to_outputs date l m details outputs

-- `append`, and whether it throws.
unfoldable pub append : Bytes → NvjLogSeverity → Bytes → Bytes → LogRecorder → Bool × LogRecorder
unfolding append_to_outputs
append date l m details r = (
  is_fatal l,
  if not (is_debug l) || r.debug_mode
      then record r { log_outputs_list = append_to_outputs date l m details r.log_outputs_list }
      else r,
)

unfoldable pub is_known : Bytes → List Bytes → Bool
is_known key [] = false
is_known key (k ∷ ks) = bytes_eq key k || is_known key ks

-- `appendUniq`
unfoldable pub append_uniq :
    Bytes → NvjLogSeverity → Bytes → Bytes → LogRecorder → Bool × LogRecorder
unfolding append is_known
append_uniq date l msg details r =
    if is_known (msg ++ details) r.uniq_log
    then (false, r)
    else append date l msg details (record r { uniq_log = (msg ++ details) ∷ r.uniq_log })

abbrev pub init_uniq : LogRecorder → LogRecorder
init_uniq r = record r { uniq_log = [] }

-- `printf`, with the text that `vsnprintf` would write into a buffer without an end.
abbrev pub printf : Bytes → NvjLogSeverity → Bytes → LogRecorder → Bool × LogRecorder
printf date severity formatted r = append date severity (c_str (take 4095 formatted)) [] r
