-- ===== src/Stream.antt =====
-- `std::istringstream` as the command parser uses it: formatted extraction, `getline` with a
-- delimiter, and `str`, which puts a new text in and leaves the state flags as they are.
pub mod Words
use ftps_server.Base.{ℕ, Bool, true, false, not, ◌||◌, List, [], ◌∷◌, ◌==◌, if◌then◌else◌}
use ftps_server.Text.{Bytes, is_space, is_empty}

-- `text` is what has not been read yet.
pub record Stream : Type 0 where
  pub text : Bytes
  pub eof : Bool
  pub fail : Bool

abbrev pub good : Stream → Bool
good s = not (s.eof || s.fail)

abbrev pub open_text : Bytes → Stream
open_text t = record { text = t; eof = false; fail = false }

unfoldable pub skip_spaces : Bytes → Bytes
skip_spaces [] = []
skip_spaces (c ∷ cs) = let rest = skip_spaces cs in if is_space c then rest else c ∷ cs

unfoldable pub word : Bytes → Bytes
word [] = []
word (c ∷ cs) = if is_space c then [] else c ∷ word cs

unfoldable pub after_word : Bytes → Bytes
after_word [] = []
after_word (c ∷ cs) = let rest = after_word cs in if is_space c then c ∷ cs else rest

-- The text behind the white space: with none left the stream fails and the target stays.
unfoldable pub read_word : Bytes → Bytes → Bytes × Stream
read_word [] target = (target, record { text = []; eof = true; fail = true })
read_word (c ∷ cs) target =
    let rest = after_word (c ∷ cs) in
    (word (c ∷ cs), record { text = rest; eof = is_empty rest; fail = false })

-- `stream >> target`.
unfoldable pub extract : Stream → Bytes → Bytes × Stream
unfolding read_word skip_spaces word after_word
extract s target =
    if good s then read_word (skip_spaces s.text) target else (target, record s { fail = true })

-- `stream.str(text)`.
abbrev pub set_text : Stream → Bytes → Stream
set_text s t = record s { text = t }

unfoldable pub field : ℕ → Bytes → Bytes
field d [] = []
field d (c ∷ cs) = if c == d then [] else c ∷ field d cs

-- What follows the first delimiter, or nothing with the end of the text reached.
unfoldable pub after_field : ℕ → Bytes → Stream
after_field d [] = record { text = []; eof = true; fail = false }
after_field d (c ∷ cs) =
    let rest = after_field d cs in
    if c == d then record { text = cs; eof = false; fail = false } else rest

unfoldable pub read_field : ℕ → Bytes → Bytes × Stream
unfolding field after_field
read_field d [] = ([], record { text = []; eof = true; fail = true })
read_field d (c ∷ cs) = (field d (c ∷ cs), after_field d (c ∷ cs))

-- `std::getline(stream, target, d)`; the call is true if the stream has not failed.
unfoldable pub getline : Stream → Bytes → ℕ → Bytes × Stream
unfolding read_field
getline s target d = if good s then read_field d s.text else (target, record s { fail = true })
