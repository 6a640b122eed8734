-- ===== src/Command/Unterminated.antt =====
-- The PORT command at the end of the text.
use ftps_server.Base.{◌≡◌, refl, Bool, true, false, [], ◌∷◌, ◌++◌, none, ok}
use ftps_server.Text.{Bytes, equal, codes, IsWord}
use ftps_server.Stream.{extract, getline, skip_spaces, word, after_word, read_word}
use ftps_server.Command.{
  incomplete, read_address, finish_port, read_port_command, read_arguments, find_command, parse,
}
use ftps_server.Command.Port.{fresh, word_all}

after_word_all : (t : Bytes) → IsWord t → after_word t ≡ []
unfolding after_word
after_word_all [] h = refl
after_word_all (c ∷ t) h = rw h.0 (after_word_all t h.1)

read_address_ended :
    (t address token : Bytes) (fail : Bool)
    → read_address 4 (record {
      stream = record { text = t; eof = true; fail = fail };
      address = address;
      token = token;
    })
      ≡ none
unfolding read_address getline
read_address_ended t address token fail = refl

extract-port_name :
    (t : Bytes) → extract (fresh (codes "PORT " ++ t)) [] ≡ (codes "PORT", fresh (b' ' ∷ t))
unfolding extract skip_spaces read_word word after_word
extract-port_name t = refl

-- A word that ends the text: the stream has come to its end.
extract-ended :
    (w : Bytes)
    → IsWord w
    → (fail : Bool) × (extract (fresh (b' ' ∷ w)) []
        ≡ (w, record { text = []; eof = true; fail = fail }))
unfolding extract skip_spaces read_word
extract-ended [] h = (true, refl)
extract-ended (c ∷ w) h = (false, rw h.0 (rw (word_all (c ∷ w) h, after_word_all (c ∷ w) h) refl))

-- A PORT line that ends with its argument, with no line end behind it, is incomplete: the stream
-- stays at its end when the argument is put into it.
parse-port_unterminated :
    (w : Bytes)
    → IsWord w
    → parse (codes "PORT " ++ w) ≡ ok (record { command = incomplete; arguments = [] })
unfolding parse find_command read_arguments equal read_port_command finish_port
parse-port_unterminated w h =
    let (fail, ended) = extract-ended w h in
    rw (extract-port_name w) (rw ended (rw read_address_ended refl))
