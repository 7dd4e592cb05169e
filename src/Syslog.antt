-- ===== src/Syslog.antt =====
-- kernel/syslog.c: the ring of the last messages. A C string is the list of its characters up to its
-- final zero, which is the end of the list.
pub mod Messages
pub mod Ring
pub mod Text
mod Examples
use nostalux_os.Base.{
  add64, sub64, ℕ, zero, suc, ◌+◌, ◌-◌, ◌%◌, bit_and, not, ◌&&◌, Option, none, some, List, [], ◌∷◌,
  ◌++◌, map, ltb, leb, ◌==◌, if◌then◌else◌, length, get_or, set,
}

abbrev pub log_capacity : ℕ
log_capacity = 64

abbrev pub message_length : ℕ
message_length = 80

-- The static variables, and the bytes that were sent to the debug port 0xE9.
pub record Syslog : Type 0 where
  pub entries : List (List ℕ)
  pub start : ℕ
  pub count : ℕ
  pub port : List ℕ

-- The loop of `copy_message` at `i`, with `left` characters to go at most, and the final zero.
unfoldable pub copy_chars : ℕ → List ℕ → ℕ → List ℕ → List ℕ
copy_chars zero dest i src = set dest i 0
copy_chars (suc left) dest i [] = set dest i 0
copy_chars (suc left) dest i (c ∷ src) = copy_chars left (set dest i c) (i + 1) src

unfoldable pub copy_message : List ℕ → List ℕ → List ℕ
copy_message dest src = copy_chars (message_length - 1) dest 0 src

abbrev pub clear_entry : List ℕ → List ℕ
clear_entry entry = set entry 0 0

abbrev pub syslog_init : Syslog → Syslog
syslog_init s = record s { entries = map clear_entry s.entries; start = 0; count = 0 }

-- The bytes for the debug port, which only the kernel may use: `cs` is the code selector.
abbrev pub debug_output : ℕ → List ℕ → List ℕ
debug_output cs message = if bit_and cs 3 == 0 then message ++ (10 ∷ []) else []

abbrev pub store_message : Syslog → ℕ → List ℕ → List (List ℕ)
store_message s index message =
    set s.entries index (copy_message (get_or s.entries index []) message)

-- The pointer NULL is `none`.
unfoldable pub syslog_write : ℕ → Option (List ℕ) → Syslog → Syslog
syslog_write cs none s = s
syslog_write cs (some message) s =
    if ltb s.count log_capacity
    then record {
      entries = store_message s ((s.start + s.count) % log_capacity) message;
      start = s.start;
      count = s.count + 1;
      port = s.port ++ debug_output cs message;
    }
    else record {
      entries = store_message s s.start message;
      start = (s.start + 1) % log_capacity;
      count = s.count;
      port = s.port ++ debug_output cs message;
    }

abbrev pub syslog_length : Syslog → ℕ
syslog_length s = s.count

unfoldable pub syslog_entry : Syslog → ℕ → Option (List ℕ)
syslog_entry s index =
    if leb s.count index
    then none
    else some (get_or s.entries ((s.start + index) % log_capacity) [])

-- The characters of an entry before its first zero; none for NULL.
abbrev pub chars_of : List ℕ → List ℕ
chars_of [] = []
chars_of (c ∷ text) = if c == 0 then [] else c ∷ chars_of text

abbrev pub text_at : Syslog → ℕ → List ℕ
text_at s index = elim (syslog_entry s index) [ none ↦ [] | some entry ↦ chars_of entry ]

-- The loop that looks for the first entry to copy.
unfoldable pub first_fitting : Syslog → ℕ → ℕ → ℕ → ℕ
first_fitting s available zero required = zero
first_fitting s available (suc first) required =
    let size = add64 (length (text_at s first)) 1 in
    let rest = first_fitting s available first (add64 required size) in
    if ltb (sub64 available required) size then suc first else rest

-- The bytes of the buffer so far are `out`, and `written` is their number.
unfoldable pub write_chars : ℕ → List ℕ → List ℕ → List ℕ
write_chars available [] out = out
write_chars available (c ∷ text) out =
    let rest = write_chars available text (out ++ (c ∷ [])) in
    if ltb (length out) available then rest else out

unfoldable pub write_entry : ℕ → List ℕ → List ℕ → List ℕ
write_entry available text out =
    let out' = write_chars available text out in
    if ltb (length out') available then out' ++ (10 ∷ []) else out'

-- The entries from `i` on, `left` of them.
unfoldable pub write_entries : Syslog → ℕ → ℕ → ℕ → List ℕ → List ℕ
write_entries s available zero i out = out
write_entries s available (suc left) i out =
    write_entries s available left (i + 1) (write_entry available (text_at s i) out)

-- The start of the newest message, when nothing was written.
unfoldable pub write_newest : Syslog → ℕ → List ℕ → List ℕ
write_newest s available out =
    if (length out == 0) && not (s.count == 0) && not (available == 0)
    then write_chars available (text_at s (s.count - 1)) out
    else out

-- The bytes before the final zero of the buffer, of which the code returns the number. For the
-- buffer NULL or the capacity 0 nothing is written.
unfoldable pub syslog_copy_text : Syslog → ℕ → List ℕ
syslog_copy_text s zero = []
syslog_copy_text s (suc available) =
    let first = first_fitting s available s.count 0 in
    write_newest s available (write_entries s available (s.count - first) first [])
