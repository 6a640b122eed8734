-- ===== src/Command/Port.antt =====
-- The PORT command: what a well-formed argument is parsed to.
use ftps_server.Base.{
  ℕ, ◌+◌, ◌*◌, ◌<◌, ◌≡◌, refl, ap, true, false, [], ◌∷◌, ◌++◌, some, arith, ◌==◌, ok, pos,
  append-nil, All,
}
use ftps_server.Text.{Bytes, equal, codes, is_space, is_digit, IsWord}
use ftps_server.Stream.{
  Stream, extract, getline, skip_spaces, word, after_word, read_word, read_field, field,
  after_field,
}
use ftps_server.Stream.Words.{word-append, after_word-append}
use ftps_server.Number.{decimal, to_string, stoi}
use ftps_server.Number.RoundTrip.{decimal-Numeral, stoi-decimal, Numeral, Digits}
use ftps_server.Number.TwoBytes.{shift_or_bytes}
use ftps_server.Command.{
  port, read_address, read_port, make_port, port_unless, finish_port, read_port_command,
  read_arguments, find_command, parse,
}

-- A field of the argument: not empty, with no white space and no comma.
abbrev pub IsField : Bytes → Type 0
IsField [] = ⊥
IsField (c ∷ cs) = All (λ (d : ℕ). (is_space d ≡ false) × ((d == b',') ≡ false)) (c ∷ cs)

abbrev pub fresh : Bytes → Stream
fresh t = record { text = t; eof = false; fail = false }

abbrev IsPlain : Bytes → Type 0
IsPlain = All (λ (d : ℕ). (is_space d ≡ false) × ((d == b',') ≡ false))

field-append : (f r : Bytes) → IsPlain f → field b',' (f ++ b',' ∷ r) ≡ f
unfolding field
field-append [] r h = refl
field-append (c ∷ f) r h = rw (h.0.1) (ap (◌∷◌ c) (field-append f r h.1))

after_field-append : (f r : Bytes) → IsPlain f → after_field b',' (f ++ b',' ∷ r) ≡ fresh r
unfolding after_field
after_field-append [] r h = refl
after_field-append (c ∷ f) r h = rw (h.0.1) (after_field-append f r h.1)

read_field-append : (f r : Bytes) → IsPlain f → read_field b',' (f ++ b',' ∷ r) ≡ (f, fresh r)
unfolding read_field
read_field-append [] r h = unfold field after_field in refl
read_field-append (c ∷ f) r h = rw (field-append (c ∷ f) r h, after_field-append (c ∷ f) r h) refl

getline-append :
    (f r token : Bytes) → IsPlain f → getline (fresh (f ++ b',' ∷ r)) token b',' ≡ (f, fresh r)
unfolding getline
getline-append f r token h = read_field-append f r h

IsPlain-IsWord : (f : Bytes) → IsPlain f → IsWord f
IsPlain-IsWord [] h = tt
IsPlain-IsWord (c ∷ f) h = (h.0.0, IsPlain-IsWord f h.1)

IsField-IsPlain : (f : Bytes) → IsField f → IsPlain f
IsField-IsPlain [] h = absurd h
IsField-IsPlain (c ∷ f) h = h

IsWord-comma : (f r : Bytes) → IsPlain f → IsWord r → IsWord (f ++ b',' ∷ r)
IsWord-comma [] r h w = (refl, w)
IsWord-comma (c ∷ f) r h w = (h.0.0, IsWord-comma f r h.1 w)

digit-plain : (d : ℕ) → is_digit d ≡ true → (is_space d ≡ false) × ((d == b',') ≡ false)
digit-plain d h = ground arith

Digits-IsPlain : (t : Bytes) → Digits t → IsPlain t
Digits-IsPlain [] h = tt
Digits-IsPlain (c ∷ t) h = (digit-plain c h.0, Digits-IsPlain t h.1)

Numeral-IsPlain : (t : Bytes) → Numeral t → IsPlain t
Numeral-IsPlain [] h = absurd h
Numeral-IsPlain (c ∷ t) h = Digits-IsPlain (c ∷ t) h

-- The extraction of a word with white space on both sides of it.
pub extract-IsWord_between :
    (x : ℕ) (w target junk : Bytes) (c : ℕ)
    → IsWord (x ∷ w)
    → is_space c ≡ true
    → extract (fresh (b' ' ∷ x ∷ w ++ c ∷ junk)) target ≡ (x ∷ w, fresh (c ∷ junk))
unfolding extract skip_spaces
extract-IsWord_between x w target junk c h s = rw h.0 (
    unfold read_word in
    rw (word-append (x ∷ w) c junk h s, after_word-append (x ∷ w) c junk h s) refl)

-- A word at the end of the text.
pub word_all : (t : Bytes) → IsWord t → word t ≡ t
unfolding word
word_all [] h = refl
word_all (c ∷ t) h = rw h.0 (ap (◌∷◌ c) (word_all t h.1))

extract-Numeral : (t target : Bytes) → Numeral t → (extract (fresh t) target).0 ≡ t
unfolding extract skip_spaces
extract-Numeral [] target h = absurd h
extract-Numeral (c ∷ t) target h =
    let w = IsPlain-IsWord (c ∷ t) (Numeral-IsPlain (c ∷ t) h) in
    rw w.0 (unfold read_word in word_all (c ∷ t) w)

-- The text of an argument: four fields, and the two bytes of the port.
abbrev pub port_argument : Bytes → Bytes → Bytes → Bytes → ℕ → ℕ → Bytes
port_argument a b c d high low =
    a ++ b',' ∷ (b ++ b',' ∷ (c ++ b',' ∷ (d ++ b',' ∷ (decimal high ++ b',' ∷ decimal low))))

abbrev pub dotted : Bytes → Bytes → Bytes → Bytes → Bytes
dotted a b c d = ((a ++ b'.' ∷ b) ++ b'.' ∷ c) ++ b'.' ∷ d

stoi_byte : (n : ℕ) → n < 256 → stoi (decimal n) ≡ ok (pos n)
stoi_byte n h = rw (append-nil (decimal n)) at (stoi-decimal n [] (omega arith) tt)

read_port-bytes :
    (high low : ℕ) (address token : Bytes)
    → high < 256
    → low < 256
    → read_port (record {
      stream = fresh (decimal high ++ b',' ∷ decimal low);
      address = address;
      token = token;
    })
      ≡ ok (record { command = port; arguments = address ∷ decimal (high * 256 + low) ∷ [] })
unfolding read_port
read_port-bytes high low address token h l =
    rw
      (getline-append (decimal high) (decimal low) token (Numeral-IsPlain _ (decimal-Numeral high)))
      (rw (extract-Numeral (decimal low) (decimal high) (decimal-Numeral low)) (
        unfold port_unless in
        rw (stoi_byte high h, stoi_byte low l)
          (unfold make_port in rw (shift_or_bytes high low h l) (unfold to_string in refl))))

read_address-fields :
    (a b c d rest : Bytes)
    → IsField a
    → IsField b
    → IsField c
    → IsField d
    → read_address 4 (record {
      stream = fresh (a ++ b',' ∷ (b ++ b',' ∷ (c ++ b',' ∷ (d ++ b',' ∷ rest))));
      address = [];
      token = [];
    })
      ≡ some (record { stream = fresh rest; address = dotted a b c d; token = d })
unfolding read_address
read_address-fields [] b c d rest ha hb hc hd = absurd ha
read_address-fields (x ∷ xs) b c d rest ha hb hc hd =
    rw (getline-append (x ∷ xs) (b ++ b',' ∷ (c ++ b',' ∷ (d ++ b',' ∷ rest))) [] ha) (
      rw (getline-append b (c ++ b',' ∷ (d ++ b',' ∷ rest)) (x ∷ xs) (IsField-IsPlain b hb)) (
        rw (getline-append c (d ++ b',' ∷ rest) b (IsField-IsPlain c hc))
          (rw (getline-append d rest c (IsField-IsPlain d hd)) refl)))

-- The argument is a word, so that the line's extraction gives it whole.
port_argument-IsField :
    (a b c d : Bytes) (high low : ℕ)
    → IsField a
    → IsField b
    → IsField c
    → IsField d
    → IsWord (port_argument a b c d high low)
port_argument-IsField a b c d high low ha hb hc hd =
    let digits = λ (n : ℕ). Numeral-IsPlain (decimal n) (decimal-Numeral n) in
    IsWord-comma a _ (IsField-IsPlain a ha) (
      IsWord-comma b _ (IsField-IsPlain b hb) (
        IsWord-comma c _ (IsField-IsPlain c hc) (
          IsWord-comma d _ (IsField-IsPlain d hd) (
            IsWord-comma (decimal high) (decimal low) (digits high)
              (IsPlain-IsWord (decimal low) (digits low))))))

read_port_command-fields :
    (a b c d junk : Bytes) (high low e : ℕ)
    → IsField a
    → IsField b
    → IsField c
    → IsField d
    → high < 256
    → low < 256
    → is_space e ≡ true
    → read_port_command (fresh (b' ' ∷ port_argument a b c d high low ++ e ∷ junk))
      ≡ ok (record { command = port; arguments = dotted a b c d ∷ decimal (high * 256 + low) ∷ [] })
unfolding read_port_command
read_port_command-fields [] b c d junk high low e ha hb hc hd h l s = absurd ha
read_port_command-fields (x ∷ xs) b c d junk high low e ha hb hc hd h l s =
    let rest =
      xs ++ b',' ∷ (b ++ b',' ∷ (c ++ b',' ∷ (d ++ b',' ∷ (decimal high ++ b',' ∷ decimal low)))) in
    rw
      (extract-IsWord_between x rest [] junk e
        (port_argument-IsField (x ∷ xs) b c d high low ha hb hc hd) s)
      (rw (read_address-fields (x ∷ xs) b c d (decimal high ++ b',' ∷ decimal low) ha hb hc hd)
        (unfold finish_port in read_port-bytes high low (dotted (x ∷ xs) b c d) d h l))

-- A PORT line with four fields and two bytes is parsed to the dotted address and the port that the
-- bytes make, whatever follows the white space behind them.
pub parse-port :
    (a b c d junk : Bytes) (high low e : ℕ)
    → IsField a
    → IsField b
    → IsField c
    → IsField d
    → high < 256
    → low < 256
    → is_space e ≡ true
    → parse (codes "PORT " ++ (port_argument a b c d high low ++ e ∷ junk))
      ≡ ok (record { command = port; arguments = dotted a b c d ∷ decimal (high * 256 + low) ∷ [] })
unfolding parse extract skip_spaces read_word word after_word find_command read_arguments equal
    read_port_command
parse-port a b c d junk high low e ha hb hc hd h l s =
    read_port_command-fields a b c d junk high low e ha hb hc hd h l s
