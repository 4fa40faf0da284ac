-- ===== src/Logs/Tests.antt =====
-- Runs of the log recorder (src/LogRecorder.cc).
use libnavajo.Base.{◌≡◌, ◌++◌, refl, true, false, List, [], ◌∷◌, none, some, length, Bytes, codes}
use libnavajo.Logs.Outputs.{
  nvj_error, nvj_warning, nvj_debug, NvjLogSeverity, LogOutput, new_log_file, new_log_syslog,
  initialize, log_file, log_std_output, to_stderr, printed,
}
use libnavajo.Logs.{
  LogRecorder, new_recorder, add_log_output, remove_log_outputs, append, append_uniq, printf,
}

abbrev one_output : LogRecorder
one_output =
    add_log_output (λ _. true) (record (new_log_file (some (codes "f"))) { with_endline = true })
      new_recorder

abbrev entries_of : List LogOutput → List (NvjLogSeverity × Bytes × Bytes)
entries_of [] = []
entries_of (o ∷ outputs) = o.entries

an_error_is_printed :
    entries_of (append (codes "[d] ") nvj_error (codes "m") [] one_output).1.log_outputs_list
    ≡ ((nvj_error, codes "[d] m\n", []) ∷ [])
unfolding append
an_error_is_printed = refl

no_debug : (append (codes "[d] ") nvj_debug (codes "m") [] one_output).1 ≡ one_output
unfolding append
no_debug = refl

abbrev after_one : LogRecorder
after_one = (append_uniq (codes "[d] ") nvj_warning (codes "ab") (codes "c") one_output).1

-- Another message with the same letters is taken for one that was printed.
same_letters :
    entries_of
      (append_uniq (codes "[d] ") nvj_warning (codes "a") (codes "bc") after_one).1.log_outputs_list
    ≡ ((nvj_warning, codes "[d] ab\n", codes "c") ∷ [])
unfolding append_uniq libnavajo.Base.bytes_eq
same_letters = refl

all_deleted : length (remove_log_outputs one_output).deleted ≡ 1
all_deleted = refl

no_date_in_syslog :
    (initialize (λ _. true) (new_log_syslog (codes "navajo"))).with_date_time ≡ false
no_date_in_syslog = refl

closed_file_prints_nothing : printed (log_file (codes "f") false) nvj_error (codes "m") ≡ none
closed_file_prints_nothing = refl

errors_are_red :
    printed log_std_output nvj_error (codes "m")
    ≡ some (to_stderr, (27 ∷ codes "[31mm\n") ++ (27 ∷ codes "[0m"))
unfolding libnavajo.Server.Text.c_str
errors_are_red = refl

a_formatted_entry :
    entries_of (printf [] nvj_error (codes "m") one_output).1.log_outputs_list
    ≡ ((nvj_error, codes "m\n", []) ∷ [])
unfolding append libnavajo.Server.Text.c_str
a_formatted_entry = refl
