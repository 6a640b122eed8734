-- ===== src/Stream/Words.antt =====
-- How a stream takes a text apart into words and fields.
use ftps_server.Base.{ℕ, ◌≡◌, refl, inl, inr, true, [], ◌∷◌, ◌++◌, arith, Bool-cases}
use ftps_server.Text.{Bytes, is_space, IsWord, IsBlank}
use ftps_server.Stream.{Stream, good, read_word, extract, skip_spaces, word, after_word}

pub skip_spaces-IsBlank : (b w : Bytes) → IsBlank b → skip_spaces (b ++ w) ≡ skip_spaces w
unfolding skip_spaces
skip_spaces-IsBlank [] w h = refl
skip_spaces-IsBlank (c ∷ b) w h = ground (arith, skip_spaces-IsBlank b w h.1)

pub word-IsWord : (t : Bytes) → IsWord (word t)
unfolding word
word-IsWord [] = tt
word-IsWord (c ∷ cs) = elim (Bool-cases (is_space c)) [
  | inl e ↦ rw e tt
  | inr e ↦ rw e (e, word-IsWord cs)
]

pub word-append :
    (w : Bytes) (c : ℕ) (t : Bytes) → IsWord w → is_space c ≡ true → word (w ++ c ∷ t) ≡ w
unfolding word
word-append [] c t h e = rw e
word-append (x ∷ w) c t h e = ground (arith, word-append w c t h.1 e)

pub after_word-append :
    (w : Bytes) (c : ℕ) (t : Bytes) → IsWord w → is_space c ≡ true → after_word (w ++ c ∷ t) ≡ c ∷ t
unfolding after_word
after_word-append [] c t h e = rw e
after_word-append (x ∷ w) c t h e = ground (arith, after_word-append w c t h.1 e)

read_word-IsWord : (t target : Bytes) → IsWord target → IsWord (read_word t target).0
unfolding read_word
read_word-IsWord [] target w = w
read_word-IsWord (c ∷ cs) target w = word-IsWord (c ∷ cs)

-- What `>>` reads is a word, if the target was one.
pub extract-IsWord : (s : Stream) (t : Bytes) → IsWord t → IsWord (extract s t).0
unfolding extract
extract-IsWord s t w = elim (Bool-cases (good s)) [
  | inl e ↦ rw e (read_word-IsWord (skip_spaces s.text) t w)
  | inr e ↦ rw e w
]
