-- ===== src/Syslog/Ring.antt =====
-- kernel/syslog.c: the ring buffer against its abstract view, the list of the last 64 messages.
use nostalux_os.Base.{
  ℕ, zero, suc, ◌+◌, ◌-◌, ◌%◌, ◌≤◌, ◌<◌, ◌≡◌, refl, sym, ap, ◌∙◌, inl, inr, Option, none, some,
  List, [], ◌∷◌, ◌++◌, arith, ltb, tests, Bool-cases, length, get_or, take, drop, length-append,
  length-set, get_or-set_self, get_or-set_ne, All, All-get_or, All-set,
}
use nostalux_os.Syslog.{
  log_capacity, message_length, Syslog, copy_message, debug_output, store_message, syslog_write,
  chars_of,
}
use nostalux_os.Syslog.Messages.{IsText, copy_message-text, copy_message-length}

pub record IsValid (s : Syslog) : Type 0 where
  pub slots : length s.entries ≡ log_capacity
  pub sizes : All (λ e. length e ≡ message_length) s.entries
  pub start_in_range : s.start < log_capacity
  pub count_in_range : s.count ≤ log_capacity

-- The entry of the message `i`, counted from the oldest.
abbrev pub slot : Syslog → ℕ → List ℕ
slot s i = get_or s.entries ((s.start + i) % 64) []

-- The texts of `left` messages from the message `i` on.
abbrev pub texts : Syslog → ℕ → ℕ → List (List ℕ)
texts s i zero = []
texts s i (suc left) = chars_of (slot s i) ∷ texts s (i + 1) left

abbrev pub messages : Syslog → List (List ℕ)
messages s = texts s 0 s.count

-- The last 64 of a list.
abbrev pub newest : List (List ℕ) → List (List ℕ)
newest l = drop (length l - log_capacity) l

-- Rings with the same entries at the same places hold the same texts.
texts-same :
    (s t : Syslog) (i j left : ℕ)
    → ((k : ℕ) → k < left → slot s (i + k) ≡ slot t (j + k))
    → texts s i left ≡ texts t j left
texts-same s t i j zero h = refl
texts-same s t i j (suc left) h =
    let here : slot s i ≡ slot t j =
      ap (slot s) (omega arith) ∙ h 0 (omega arith) ∙ ap (slot t) (omega arith) in
    let rest =
      texts-same s t (i + 1) (j + 1) left
        (λ k lt. ap (slot s) (omega arith) ∙ h (suc k) (omega arith) ∙ ap (slot t) (omega arith)) in
    simp here (ap (λ (l : List (List ℕ)). chars_of (slot t j) ∷ l) rest)

texts-snoc :
    (s : Syslog) (i left : ℕ)
    → texts s i (suc left) ≡ texts s i left ++ (chars_of (slot s (i + left)) ∷ [])
texts-snoc s i zero = ap (λ (k : ℕ). chars_of (slot s k) ∷ []) (omega arith)
texts-snoc s i (suc left) =
    ap (λ (l : List (List ℕ)). chars_of (slot s i) ∷ l)
      (texts-snoc s (i + 1) left
        ∙ ap (λ (k : ℕ). texts s (i + 1) left ++ (chars_of (slot s k) ∷ [])) (omega arith))

length-texts : (s : Syslog) (i left : ℕ) → length (texts s i left) ≡ left
length-texts s i zero = refl
length-texts s i (suc left) = ap suc (length-texts s (i + 1) left)

newest-short : (l : List (List ℕ)) → length l ≤ 64 → newest l ≡ l
newest-short l h = let z : length l - log_capacity ≡ 0 = omega arith in rw z refl

newest-full :
    (l : List (List ℕ)) (x y : List ℕ)
    → length l ≡ 63
    → newest ((y ∷ l) ++ (x ∷ [])) ≡ l ++ (x ∷ [])
newest-full l x y h =
    let z : length ((y ∷ l) ++ (x ∷ [])) - log_capacity ≡ 1 =
      omega (arith, length-append (y ∷ l) (x ∷ [])) in
    ap (λ (n : ℕ). drop n ((y ∷ l) ++ (x ∷ []))) z

-- The ring after a write, with room and without.
abbrev grown : Syslog → List ℕ → List ℕ → Syslog
grown s message port = record {
  entries = store_message s ((s.start + s.count) % log_capacity) message;
  start = s.start;
  count = s.count + 1;
  port = port;
}

abbrev rotated : Syslog → List ℕ → List ℕ → Syslog
rotated s message port = record {
  entries = store_message s s.start message;
  start = (s.start + 1) % log_capacity;
  count = s.count;
  port = port;
}

stored :
    (s : Syslog) (message : List ℕ) (index : ℕ)
    → IsValid s
    → IsText message
    → index < 64
    → chars_of (get_or (store_message s index message) index []) ≡ take 79 message
stored s message index v h lt =
    ap chars_of (
      get_or-set_self s.entries index (copy_message (get_or s.entries index []) message) []
        (omega (arith, v.slots)))
    ∙ copy_message-text (get_or s.entries index []) message
        (All-get_or (λ e. length e ≡ message_length) s.entries index [] v.sizes
          (omega (arith, v.slots)))
        h

grown-messages :
    (s : Syslog) (message port : List ℕ)
    → IsValid s
    → IsText message
    → s.count < 64
    → messages (grown s message port) ≡ newest (messages s ++ (take 79 message ∷ []))
grown-messages s message port v h lt =
    let t = grown s message port in
    let n : s.count + 1 ≡ suc s.count = omega arith in
    let place : (s.start + (0 + s.count)) % 64 ≡ (s.start + s.count) % 64 = omega arith in
    ap (texts t 0) n
    ∙ texts-snoc t 0 s.count
    ∙ ap (λ (l : List (List ℕ)). l ++ (chars_of (slot t (0 + s.count)) ∷ []))
        (texts-same t s 0 0 s.count (λ k lk.
          get_or-set_ne s.entries ((s.start + s.count) % log_capacity) ((s.start + (0 + k)) % 64)
            (copy_message (get_or s.entries ((s.start + s.count) % log_capacity) []) message) []
            (omega arith)))
    ∙ ap (λ (x : List ℕ). messages s ++ (x ∷ []))
        (ap (λ (q : ℕ). chars_of (get_or t.entries q [])) place
          ∙ stored s message ((s.start + s.count) % log_capacity) v h (omega arith))
    ∙ sym (
        newest-short (messages s ++ (take 79 message ∷ [])) (
          omega
            (arith, length-append (messages s) (take 79 message ∷ []), length-texts s 0 s.count)))

rotated-messages :
    (s : Syslog) (message port : List ℕ)
    → IsValid s
    → IsText message
    → s.count ≡ 64
    → messages (rotated s message port) ≡ newest (messages s ++ (take 79 message ∷ []))
rotated-messages s message port v h full =
    let t = rotated s message port in
    let start = v.start_in_range in
    let place : ((s.start + 1) % log_capacity + (0 + 63)) % 64 ≡ s.start = omega arith in
    ap (texts t 0) full
    ∙ texts-snoc t 0 63
    ∙ ap (λ (l : List (List ℕ)). l ++ (chars_of (slot t (0 + 63)) ∷ []))
        (texts-same t s 0 (0 + 1) 63 (λ k lk.
          get_or-set_ne s.entries s.start (((s.start + 1) % log_capacity + (0 + k)) % 64)
            (copy_message (get_or s.entries s.start []) message) [] (omega arith)
          ∙ ap (λ (q : ℕ). get_or s.entries q []) (omega arith)))
    ∙ ap (λ (x : List ℕ). texts s (0 + 1) 63 ++ (x ∷ []))
        (ap (λ (q : ℕ). chars_of (get_or t.entries q [])) place
          ∙ stored s message s.start v h start)
    ∙ sym (
        newest-full (texts s (0 + 1) 63) (take 79 message) (chars_of (slot s 0))
          (length-texts s (0 + 1) 63))
    ∙ ap (λ (n : ℕ). newest (texts s 0 n ++ (take 79 message ∷ []))) (sym full)

-- In a valid ring, a message of nonzero characters that is written becomes the last of the log, cut
-- to 79 characters, and the oldest of 64 messages makes room for it.
pub syslog_write-messages :
    (cs : ℕ) (message : List ℕ) (s : Syslog)
    → IsValid s
    → IsText message
    → messages (syslog_write cs (some message) s) ≡ newest (messages s ++ (take 79 message ∷ []))
unfolding syslog_write
syslog_write-messages cs message s v h =
    let port = s.port ++ debug_output cs message in
    elim (Bool-cases (ltb s.count log_capacity)) [
      | inl lt ↦ simp lt (grown-messages s message port v h (omega (tests, lt)))
      | inr ge ↦ simp ge (rotated-messages s message port v h (omega (tests, ge, v.count_in_range)))
    ]

store-sizes :
    (s : Syslog) (index : ℕ) (message : List ℕ)
    → IsValid s
    → index < 64
    → All (λ e. length e ≡ message_length) (store_message s index message)
store-sizes s index message v lt =
    let old = get_or s.entries index [] in
    All-set (λ e. length e ≡ message_length) s.entries index (copy_message old message) v.sizes
      (copy_message-length old message
        ∙ All-get_or (λ e. length e ≡ message_length) s.entries index [] v.sizes
            (omega (arith, v.slots)))

-- Writing keeps the ring valid.
pub syslog_write-IsValid :
    (cs : ℕ) (message : Option (List ℕ)) (s : Syslog)
    → IsValid s
    → IsValid (syslog_write cs message s)
unfolding syslog_write
syslog_write-IsValid cs none s v = v
syslog_write-IsValid cs (some message) s v = elim (Bool-cases (ltb s.count log_capacity)) [
  | inl lt ↦
      let index = (s.start + s.count) % log_capacity in
      simp lt (record {
        slots =
            length-set s.entries index (copy_message (get_or s.entries index []) message) ∙ v.slots;
        sizes = store-sizes s index message v (omega arith);
        start_in_range = v.start_in_range;
        count_in_range = omega (tests, lt);
      })
  | inr ge ↦ simp ge (record {
    slots =
        length-set s.entries s.start (copy_message (get_or s.entries s.start []) message) ∙ v.slots;
    sizes = store-sizes s s.start message v v.start_in_range;
    start_in_range = omega arith;
    count_in_range = v.count_in_range;
  })
]
