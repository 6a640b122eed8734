-- ===== src/Session/Stale.antt =====
-- src/ftp_session.cpp, `client_session_thread`: a message is read as a C string, together with the
-- bytes that earlier messages left behind it in the buffer.
use ftps_server.Base.{
  ◌≡◌, ◌≢◌, ◌≤◌, arith, refl, true, List, [], ◌∷◌, ◌++◌, some, length, drop, take, Bool-cases, inl,
  inr,
}
use ftps_server.Text.{Bytes, is_space}
use ftps_server.Command.{port, find_command, command_map}
use ftps_server.Command.Arity.{arity}
use ftps_server.Command.Split.{words, words_onto, flush, head_or, tail, parse-words}
use ftps_server.FileSystem.Os.{Os}
use ftps_server.Net.World.{Net}
use ftps_server.Session.State.{Machine}
use ftps_server.Session.Dispatch.{c_string, overwrite, handle_buffer, dispatch}
use ftps_server.Session.Lines.{
  HasNoZero, c_string-append, handle_buffer-text, overwrite-covered, drop-lt, length-c_string,
}

-- A text that ends with white space: no word goes on behind it.
abbrev pub EndsWord : Bytes → Type 0
EndsWord [] = ⊥
EndsWord (c ∷ []) = is_space c ≡ true
EndsWord (c ∷ d ∷ cs) = EndsWord (d ∷ cs)

flush-append : (w : Bytes) (us vs : List Bytes) → flush w (us ++ vs) ≡ flush w us ++ vs
flush-append [] us vs = refl
flush-append (c ∷ w) us vs = refl

words_onto-append : (w s t : Bytes) → EndsWord s → words_onto w (s ++ t) ≡ words_onto w s ++ words t
unfolding words_onto
words_onto-append w [] t h = absurd h
words_onto-append w (c ∷ []) t h = rw h (flush-append w [] (words t))
words_onto-append w (c ∷ d ∷ s) t h = elim (Bool-cases (is_space c)) [
  | inl e ↦ rw (e, words_onto-append [] (d ∷ s) t h) (flush-append w (words (d ∷ s)) (words t))
  | inr e ↦ rw e (words_onto-append (w ++ c ∷ []) (d ∷ s) t h)
]

module _ {E F : Type 0} (net : Net E) (os : Os F) where
  -- A message that ends with white space, in a buffer of at most 2000 bytes in which a text stands behind it: what the thread
  -- executes is the command that the first word of both together names, with the second word as its
  -- argument if it takes one. So a message with all the words of its command is read as it is, and one
  -- whose argument is missing takes it from what an earlier message left behind. Of PORT this says
  -- nothing.
  pub handle_buffer-words :
      (message buffer old : Bytes) (m : Machine E F)
      → length buffer ≤ 2000
      → HasNoZero message
      → EndsWord message
      → c_string (drop (length message) buffer) ≡ some old
      → let ws = words message ++ words old in
        let t = find_command command_map (head_or ws) in
        t ≢ port
        → handle_buffer net os (overwrite buffer message) m
          ≡ dispatch net os t
              (record { command = t; arguments = take (arity t) (head_or (tail ws) ∷ []) })
              m
  handle_buffer-words message buffer old m b z e c n =
      let both = words_onto-append [] message old e in
      let rest = drop (length message) buffer in
      let fits = drop-lt (length message) buffer (length-c_string rest old c) in
      rw (overwrite-covered buffer message b (omega (arith, fits))) (
        handle_buffer-text net os (message ++ rest) (message ++ old) _ m
          (c_string-append message (drop (length message) buffer) old z c)
          (rw both at (parse-words (message ++ old) (rw both n))))
