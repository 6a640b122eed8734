-- ===== src/Session/Lines.antt =====
-- What a session makes of a message that is one line: a command's name, an argument and the end.
use ftps_server.Base.{
  ap, take, ◌<◌, ℕ, zero, suc, ◌+◌, ◌≤◌, ◌≡◌, refl, false, true, List, [], ◌∷◌, ◌++◌, some, length,
  length-append, drop, ◌==◌, arith, ok, All, append_assoc,
}
use ftps_server.Text.{Bytes, codes, equal, is_space, IsWord}
use ftps_server.Stream.{extract, skip_spaces, read_word, word, after_word}
use ftps_server.Command.{
  CommandType, Command, stor, auth, dele, parse, find_command, read_arguments, one_argument,
}
use ftps_server.Command.Port.{fresh, extract-IsWord_between}
use ftps_server.FileSystem.Os.{Os}
use ftps_server.Net.World.{Net}
use ftps_server.Session.State.{Machine, terminated, is_state}
use ftps_server.Session.Dispatch.{c_string, overwrite, handle_buffer, dispatch, session_loop}

-- An argument: a word with no zero byte.
abbrev pub IsArgument : Bytes → Type 0
IsArgument [] = ⊥
IsArgument (c ∷ cs) = All (λ (d : ℕ). (is_space d ≡ false) × ((d == 0) ≡ false)) (c ∷ cs)

abbrev pub HasNoZero : Bytes → Type 0
HasNoZero = All (λ (d : ℕ). (d == 0) ≡ false)

-- A line: how it starts, the argument and the end.
abbrev pub line_of : Bytes → Bytes → Bytes
line_of start argument = start ++ (argument ++ codes "\r\n")

abbrev HasZero : Bytes → Type 0
HasZero [] = ⊥
HasZero (zero ∷ cs) = Unit
HasZero (suc c ∷ cs) = HasZero cs

-- A buffer of the size of the code's, with a zero byte behind its first `n` bytes.
abbrev pub EndsBehind : ℕ → Bytes → Type 0
EndsBehind n buffer = HasZero (drop n buffer) × (length buffer ≤ 2000)

-- A line over what a buffer holds.
abbrev covered : Bytes → Bytes → Bytes
covered buffer line = line ++ drop (length line) buffer

HasZero-weaken :
    (n k : ℕ) (buffer : Bytes) → k ≤ n → HasZero (drop n buffer) → HasZero (drop k buffer)
HasZero-weaken zero zero buffer l h = h
HasZero-weaken zero (suc k) buffer l h = absurd (omega arith)
HasZero-weaken (suc n) zero [] l h = absurd h
HasZero-weaken (suc n) (suc k) [] l h = absurd h
HasZero-weaken (suc n) zero (zero ∷ buffer) l h = tt
HasZero-weaken (suc n) zero (suc c ∷ buffer) l h = HasZero-weaken n 0 buffer (omega arith) h
HasZero-weaken (suc n) (suc k) (c ∷ buffer) l h = HasZero-weaken n k buffer (omega arith) h

HasZero-covered :
    (n : ℕ) (buffer line : Bytes)
    → length line ≤ n
    → HasZero (drop n buffer)
    → HasZero (drop n (covered buffer line))
HasZero-covered n buffer [] l h = h
HasZero-covered zero buffer (c ∷ line) l h = absurd (omega arith)
HasZero-covered (suc n) [] (c ∷ line) l h = absurd h
HasZero-covered (suc n) (b ∷ buffer) (c ∷ line) l h = HasZero-covered n buffer line (omega arith) h

HasZero-length : (n : ℕ) (buffer : Bytes) → HasZero (drop n buffer) → n < length buffer
HasZero-length zero [] h = absurd h
HasZero-length zero (c ∷ buffer) h = omega arith
HasZero-length (suc n) [] h = absurd h
HasZero-length (suc n) (c ∷ buffer) h = omega (arith, HasZero-length n buffer h)

length-covered :
    (buffer line : Bytes)
    → length line ≤ length buffer
    → length (covered buffer line) ≡ length buffer
length-covered buffer [] l = refl
length-covered [] (c ∷ line) l = absurd (omega arith)
length-covered (b ∷ buffer) (c ∷ line) l = omega (arith, length-covered buffer line (omega arith))

take-all : (n : ℕ) (t : Bytes) → length t ≤ n → take n t ≡ t
take-all zero [] l = refl
take-all (suc n) [] l = refl
take-all zero (c ∷ t) l = absurd (omega arith)
take-all (suc n) (c ∷ t) l = ap (λ (x : Bytes). c ∷ x) (take-all n t (omega arith))

-- A message that fits is put over the buffer.
pub overwrite-covered :
    (buffer line : Bytes)
    → length buffer ≤ 2000
    → length line ≤ length buffer
    → overwrite buffer line ≡ line ++ drop (length line) buffer
overwrite-covered buffer line b l =
    take-all 2000 (covered buffer line) (omega (arith, length-covered buffer line l))

pub EndsBehind-overwrite :
    (n : ℕ) (buffer line : Bytes)
    → length line ≤ n
    → EndsBehind n buffer
    → EndsBehind n (overwrite buffer line)
EndsBehind-overwrite n buffer line l (h, b) =
    let fits : length line ≤ length buffer = omega (arith, HasZero-length n buffer h) in
    rw (overwrite-covered buffer line b fits)
      (HasZero-covered n buffer line l h, omega (arith, length-covered buffer line fits))

pub drop-lt : (k : ℕ) (t : Bytes) → 0 < length (drop k t) → k < length t
drop-lt zero t h = h
drop-lt (suc k) [] h = absurd (omega arith)
drop-lt (suc k) (c ∷ t) h = omega (arith, drop-lt k t h)

pub length-c_string : (t s : Bytes) → c_string t ≡ some s → 0 < length t
unfolding c_string
length-c_string [] s e = cc
length-c_string (c ∷ t) s e = omega arith

c_string-HasZero : (t : Bytes) → HasZero t → (s : Bytes) × (c_string t ≡ some s)
unfolding c_string
c_string-HasZero [] h = absurd h
c_string-HasZero (zero ∷ t) h = ([], refl)
c_string-HasZero (suc c ∷ t) h = let (s, e) = c_string-HasZero t h in (suc c ∷ s, rw e refl)

pub c_string-append :
    (line t s : Bytes)
    → HasNoZero line
    → c_string t ≡ some s
    → c_string (line ++ t) ≡ some (line ++ s)
unfolding c_string
c_string-append [] t s h e = e
c_string-append (zero ∷ line) t s h e = absurd (let bad : true ≡ false = h.0 in cc)
c_string-append (suc n ∷ line) t s h e = rw (c_string-append line t s h.1 e) refl

HasNoZero-append : (s t : Bytes) → HasNoZero s → HasNoZero t → HasNoZero (s ++ t)
HasNoZero-append [] t h k = k
HasNoZero-append (c ∷ s) t h k = (h.0, HasNoZero-append s t h.1 k)

All-HasNoZero :
    (t : Bytes) → All (λ (d : ℕ). (is_space d ≡ false) × ((d == 0) ≡ false)) t → HasNoZero t
All-HasNoZero [] h = tt
All-HasNoZero (c ∷ t) h = (h.0.1, All-HasNoZero t h.1)

All-IsWord : (t : Bytes) → All (λ (d : ℕ). (is_space d ≡ false) × ((d == 0) ≡ false)) t → IsWord t
All-IsWord [] h = tt
All-IsWord (c ∷ t) h = (h.0.0, All-IsWord t h.1)

pub HasNoZero-line_of :
    (start argument : Bytes)
    → HasNoZero start
    → IsArgument argument
    → HasNoZero (line_of start argument)
HasNoZero-line_of start [] h a = absurd a
HasNoZero-line_of start (c ∷ cs) h a =
    HasNoZero-append start _ h
      (HasNoZero-append (c ∷ cs) _ (All-HasNoZero (c ∷ cs) a) (refl, (refl, tt)))

-- The five bytes of a start, and the two at the end.
pub length-line_of :
    (start argument : Bytes) {n : ℕ}
    → length start ≡ 5
    → length argument + 7 ≤ n
    → length (line_of start argument) ≤ n
length-line_of start argument five h =
    omega
      (arith, length-append start (argument ++ codes "\r\n"), length-append argument (codes "\r\n"))

one_argument-IsArgument :
    (t : CommandType) (argument junk : Bytes)
    → IsArgument argument
    → one_argument t (fresh (b' ' ∷ ((argument ++ codes "\r\n") ++ junk)))
      ≡ ok (record { command = t; arguments = argument ∷ [] })
one_argument-IsArgument t [] junk a = absurd a
one_argument-IsArgument t (x ∷ w) junk a =
    rw (append_assoc w (codes "\r\n") junk)
      (rw (extract-IsWord_between x w [] (b'\n' ∷ junk) b'\r' (All-IsWord (x ∷ w) a) refl) refl)

pub parse-stor :
    (argument junk : Bytes)
    → IsArgument argument
    → parse (line_of (codes "STOR ") argument ++ junk)
      ≡ ok (record { command = stor; arguments = argument ∷ [] })
unfolding parse extract skip_spaces read_word word after_word find_command read_arguments equal
parse-stor argument junk a = one_argument-IsArgument stor argument junk a

pub parse-auth :
    (argument junk : Bytes)
    → IsArgument argument
    → parse (line_of (codes "AUTH ") argument ++ junk)
      ≡ ok (record { command = auth; arguments = argument ∷ [] })
unfolding parse extract skip_spaces read_word word after_word find_command read_arguments equal
parse-auth argument junk a = one_argument-IsArgument auth argument junk a

pub parse-dele :
    (argument junk : Bytes)
    → IsArgument argument
    → parse (line_of (codes "DELE ") argument ++ junk)
      ≡ ok (record { command = dele; arguments = argument ∷ [] })
unfolding parse extract skip_spaces read_word word after_word find_command read_arguments equal
parse-dele argument junk a = one_argument-IsArgument dele argument junk a

module _ {E F : Type 0} (net : Net E) (os : Os F) where
  pub handle_buffer-text :
      (buffer line : Bytes) (c : Command) (m : Machine E F)
      → c_string buffer ≡ some line
      → parse line ≡ ok c
      → handle_buffer net os buffer m ≡ dispatch net os c.command c m
  unfolding handle_buffer
  handle_buffer-text buffer line c m t e = rw (t, handle_buffer, e) refl

  pub handle_buffer-line :
      (n : ℕ) (line buffer : Bytes) (c : Command) (m : Machine E F)
      → HasNoZero line
      → length line ≤ n
      → EndsBehind n buffer
      → ((junk : Bytes) → parse (line ++ junk) ≡ ok c)
      → handle_buffer net os (overwrite buffer line) m ≡ dispatch net os c.command c m
  handle_buffer-line n line buffer c m h l b e =
      let rest = drop (length line) buffer in
      let fits : length line ≤ length buffer = omega (arith, HasZero-length n buffer b.0) in
      let (junk, j) = c_string-HasZero rest (HasZero-weaken n (length line) buffer l b.0) in
      rw (overwrite-covered buffer line b.1 fits) (
        handle_buffer-text (line ++ rest) (line ++ junk) c m (c_string-append line rest junk h j)
          (e junk))

  -- A line at the head of the loop, in a buffer that holds a zero byte behind it.
  pub session_loop-line :
      (n x : ℕ) (start argument buffer : Bytes) (messages : List Bytes) (c : Command)
      (m m' : Machine E F)
      → HasNoZero (x ∷ start)
      → length (x ∷ start) ≡ 5
      → IsArgument argument
      → length argument + 7 ≤ n
      → EndsBehind n buffer
      → ((junk : Bytes) → parse (line_of (x ∷ start) argument ++ junk) ≡ ok c)
      → is_state m.state terminated ≡ false
      → dispatch net os c.command c m ≡ ok m'
      → let line = line_of (x ∷ start) argument in
        (session_loop net os (line ∷ messages) buffer m
          ≡ session_loop net os messages (overwrite buffer line) m')
        × EndsBehind n (overwrite buffer line)
  unfolding session_loop
  session_loop-line n x start argument buffer messages c m m' z five a l b e live d =
      let line = line_of (x ∷ start) argument in
      let fits = length-line_of (x ∷ start) argument five l in
      let h = HasNoZero-line_of (x ∷ start) argument z a in
      (
        rw (live, handle_buffer-line n line buffer c m h fits b e, d) refl,
        EndsBehind-overwrite n buffer line fits b,
      )
