-- ===== src/Syslog/Examples.antt =====
-- The system log with three messages, the first two of which stand across the end of the ring.
use nostalux_os.Base.{
  ℕ, ◌≡◌, refl, some, List, [], ◌∷◌, ◌++◌, arith, length, take, replicate, All-replicate,
}
use nostalux_os.Syslog.{
  message_length, Syslog, copy_chars, copy_message, syslog_write, syslog_entry, first_fitting,
  write_chars, write_entry, write_entries, write_newest, syslog_copy_text,
}
use nostalux_os.Syslog.Ring.{IsValid, messages, newest, syslog_write-messages, syslog_write-IsValid}
use nostalux_os.Syslog.Text.{Fits, log_text, syslog_copy_text-lines}

abbrev blank : List ℕ
blank = replicate 80 0

abbrev start_log : Syslog
start_log = record { entries = replicate 64 blank; start = 62; count = 0; port = [] }

start_log-IsValid : IsValid start_log
start_log-IsValid = record {
  slots = refl;
  sizes = All-replicate (λ e. length e ≡ message_length) 64 blank refl;
  start_in_range = omega arith;
  count_in_range = omega arith;
}

abbrev used_log : Syslog
used_log =
    syslog_write 0 (some (67 ∷ []))
      (syslog_write 0 (some (66 ∷ [])) (syslog_write 3 (some (65 ∷ 65 ∷ [])) start_log))

used_log-IsValid : IsValid used_log
used_log-IsValid =
    syslog_write-IsValid 0 (some (67 ∷ []))
      (syslog_write 0 (some (66 ∷ [])) (syslog_write 3 (some (65 ∷ 65 ∷ [])) start_log))
      (syslog_write-IsValid 0 (some (66 ∷ [])) (syslog_write 3 (some (65 ∷ 65 ∷ [])) start_log)
        (syslog_write-IsValid 3 (some (65 ∷ 65 ∷ [])) start_log start_log-IsValid))

used_log-text : syslog_copy_text used_log 6 ≡ 66 ∷ 10 ∷ 67 ∷ 10 ∷ []
unfolding syslog_copy_text syslog_write copy_message copy_chars first_fitting write_entries
    write_entry write_chars write_newest syslog_entry
used_log-text = refl

used_log-port : used_log.port ≡ 66 ∷ 10 ∷ 67 ∷ 10 ∷ []
unfolding syslog_write
used_log-port = refl

syslog_write-messages_example :
    messages (syslog_write 0 (some (68 ∷ [])) used_log)
    ≡ newest (messages used_log ++ (take 79 (68 ∷ []) ∷ []))
syslog_write-messages_example =
    syslog_write-messages 0 (68 ∷ []) used_log used_log-IsValid ((λ e. ground arith), tt)

syslog_copy_text-lines_example :
    (first : ℕ) × Fits used_log 5 first × (syslog_copy_text used_log 6 ≡ log_text used_log 5 first)
syslog_copy_text-lines_example = syslog_copy_text-lines used_log 5 used_log-IsValid (omega arith)
