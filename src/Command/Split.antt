-- ===== src/Command/Split.antt =====
-- The parser against the words of a line.
use ftps_server.Base.{
  ℕ, ◌≡◌, ◌≢◌, refl, take, ◌∙◌, false, List, [], ◌∷◌, ◌++◌, arith, Bool-cases, inl, inr,
  if◌then◌else◌, ok, append_assoc, append-nil,
}
use ftps_server.Text.{Bytes, is_space, is_empty}
use ftps_server.Stream.{Stream, good, open_text, extract, skip_spaces, word, after_word, read_word}
use ftps_server.Stream.Words.{extract-IsWord}
use ftps_server.Command.{
  CommandType, port, site_utime, read_arguments, find_command, command_map, parse,
}
use ftps_server.Command.Arity.{find_command-spaced, has_space, arity, is_site}

-- The words of a text, read from the left; `w` is the part of a word read so far.
abbrev pub flush : Bytes → List Bytes → List Bytes
flush [] ws = ws
flush (c ∷ cs) ws = (c ∷ cs) ∷ ws

unfoldable pub words_onto : Bytes → Bytes → List Bytes
words_onto w [] = flush w []
words_onto w (c ∷ cs) =
    let on = words_onto (w ++ c ∷ []) cs in
    let next = flush w (words_onto [] cs) in if is_space c then next else on

abbrev pub words : Bytes → List Bytes
words = words_onto []

words_onto-word :
    (d : ℕ) (w t : Bytes) → words_onto (d ∷ w) t ≡ (d ∷ w ++ word t) ∷ words (after_word t)
unfolding words_onto word after_word
words_onto-word d w [] = simp append-nil
words_onto-word d w (c ∷ cs) = elim (Bool-cases (is_space c)) [
  | inl e ↦ rw (e, append-nil, words_onto, e) refl
  | inr e ↦ rw e (words_onto-word d (w ++ c ∷ []) cs ∙ simp append_assoc)
]

words-skip_spaces : (t : Bytes) → words t ≡ words (skip_spaces t)
unfolding words_onto skip_spaces
words-skip_spaces [] = refl
words-skip_spaces (c ∷ cs) = elim (Bool-cases (is_space c)) [
  | inl e ↦ rw e (words-skip_spaces cs)
  | inr e ↦ rw (e, words_onto, e) refl
]

skip_spaces-head : (t cs : Bytes) (c : ℕ) → skip_spaces t ≡ c ∷ cs → is_space c ≡ false
unfolding skip_spaces
skip_spaces-head [] cs c e = cc
skip_spaces-head (d ∷ t) cs c e = ground (arith, skip_spaces-head t cs c)

abbrev pub head_or : List Bytes → Bytes
head_or [] = []
head_or (w ∷ ws) = w

abbrev pub tail : List Bytes → List Bytes
tail [] = []
tail (w ∷ ws) = ws

-- A stream that is not good has nothing left to read.
abbrev IsTidy : Stream → Type 0
IsTidy s = good s ≡ false → s.text ≡ []

abbrev ReadsFrom : List Bytes → Bytes × Stream → Type 0
ReadsFrom ws r = (r.0 ≡ head_or ws) × (words r.1.text ≡ tail ws) × IsTidy r.1

read_word-IsTidy : (t : Bytes) → IsTidy (record { text = t; eof = is_empty t; fail = false })
read_word-IsTidy [] e = refl
read_word-IsTidy (c ∷ cs) e = cc

read_word-words :
    (t : Bytes)
    → ((c : ℕ) (cs : Bytes) → t ≡ c ∷ cs → is_space c ≡ false)
    → ReadsFrom (words t) (read_word t [])
unfolding words_onto read_word word after_word
read_word-words [] h = (refl, refl, λ e. refl)
read_word-words (c ∷ cs) h =
    let e = h c cs refl in
    (
      rw e (rw (words_onto-word c [] cs) refl),
      rw e (rw (words_onto-word c [] cs) refl),
      read_word-IsTidy (after_word (c ∷ cs)),
    )

extract-words : (s : Stream) → IsTidy s → ReadsFrom (words s.text) (extract s [])
unfolding extract
extract-words s tidy = elim (Bool-cases (good s)) [
  | inl e ↦
      rw (e, words-skip_spaces s.text)
        (read_word-words (skip_spaces s.text) (λ c cs. skip_spaces-head s.text cs c))
  | inr e ↦ rw e (unfold words_onto in rw (tidy e) (refl, refl, λ _. refl))
]

read_arguments-arity :
    (t : CommandType) (s : Stream)
    → t ≢ port
    → is_site t ≡ false
    → read_arguments t s
      ≡ ok (record { command = t; arguments = take (arity t) ((extract s []).0 ∷ []) })
unfolding read_arguments
read_arguments-arity port s h k = absurd (h refl)
read_arguments-arity site_utime s h k = cc
read_arguments-arity _ s h k = refl

-- A line is parsed by its words: the first names the command, and the second, or an empty text if
-- there is none, is the argument of a command that has one. Of PORT this says nothing.
pub parse-words :
    (line : Bytes)
    → let t = find_command command_map (head_or (words line)) in
      t ≢ port
      → parse line
        ≡ ok (record { command = t; arguments = take (arity t) (head_or (tail (words line)) ∷ []) })
unfolding parse
parse-words line h =
    let (name, rest, tidy) = extract-words (open_text line) (λ e. cc) in
    let (argument, _, _) = extract-words (extract (open_text line) []).1 tidy in
    rw (← name) (
      read_arguments-arity (find_command command_map (extract (open_text line) []).0)
        (extract (open_text line) []).1 (rw (← name) at h)
        (find_command-spaced command_map (extract (open_text line) []).0 (unfold has_space in refl)
          (extract-IsWord (open_text line) [] tt))
      ∙ rw (argument, rest) refl)
