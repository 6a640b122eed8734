-- ===== src/Session/Announce.antt =====
-- The reply of PASV, read as the argument of PORT.
use ftps_server.Base.{
  ℕ, ◌^◌, ◌<◌, ◌≡◌, refl, ap, ◌∙◌, true, false, [], ◌∷◌, ◌++◌, ◌==◌, ok, pos, append_assoc, All,
}
use ftps_server.Text.{Bytes, codes, replace, is_space}
use ftps_server.Number.{decimal, to_string}
use ftps_server.Command.{port, parse}
use ftps_server.Command.Port.{IsField, dotted, port_argument, parse-port}
use ftps_server.Net.Endpoints.{to_port}
use ftps_server.Session.Channel.{passive_reply, high_byte, low_byte}
use ftps_server.Session.Passive.{passive_bytes}

-- A field of an address: no dot either.
abbrev pub IsDotless : Bytes → Type 0
IsDotless = All (λ (c : ℕ). (c == b'.') ≡ false)

replace-append :
    (from to : ℕ) (t u : Bytes) → replace from to (t ++ u) ≡ replace from to t ++ replace from to u
unfolding replace
replace-append from to [] u = refl
replace-append from to (c ∷ t) u = rw (replace-append from to t u) refl

replace-IsDotless : (to : ℕ) (t : Bytes) → IsDotless t → replace b'.' to t ≡ t
unfolding replace
replace-IsDotless to [] h = refl
replace-IsDotless to (c ∷ t) h = rw h.0 (ap (◌∷◌ c) (replace-IsDotless to t h.1))

replace-field :
    (t u : Bytes)
    → IsDotless u
    → replace b'.' b',' (t ++ b'.' ∷ u) ≡ replace b'.' b',' t ++ b',' ∷ u
replace-field t u h =
    replace-append b'.' b',' t (b'.' ∷ u)
    ∙ ap (λ x. replace b'.' b',' t ++ x)
        (unfold replace in ap (◌∷◌ b',') (replace-IsDotless b',' u h))

passive_reply-port_argument :
    (a b c d : Bytes) (n : ℕ)
    → IsDotless a
    → IsDotless b
    → IsDotless c
    → IsDotless d
    → passive_reply (dotted a b c d) n
      ≡ codes "227 Entering Passive Mode ("
        ++ (port_argument a b c d (high_byte n) (low_byte n) ++ codes ")\r\n")
unfolding passive_reply to_string
passive_reply-port_argument a b c d n ha hb hc hd =
    rw
      (
        replace-field ((a ++ b'.' ∷ b) ++ b'.' ∷ c) d hd,
        replace-field (a ++ b'.' ∷ b) c hc,
        replace-field a b hb,
        replace-IsDotless b',' a ha,
      )
      (simp append_assoc)

-- What PASV announces a client may send as the argument of PORT, with white space behind it: for an
-- address of four fields and a counter that fits an `int`, it is parsed to that address and to the
-- 16-bit port that the listener is bound to.
pub parse-passive_reply :
    (a b c d junk : Bytes) (n e : ℕ)
    → IsField a × IsDotless a
    → IsField b × IsDotless b
    → IsField c × IsDotless c
    → IsField d × IsDotless d
    → n < 2 ^ 31
    → is_space e ≡ true
    → (argument : Bytes) × (passive_reply (dotted a b c d) n
        ≡ codes "227 Entering Passive Mode (" ++ (argument ++ codes ")\r\n"))
      × (parse (codes "PORT " ++ (argument ++ e ∷ junk))
          ≡ ok (record {
            command = port;
            arguments = dotted a b c d ∷ decimal (to_port (pos n)) ∷ [];
          }))
parse-passive_reply a b c d junk n e ha hb hc hd l s =
    let (high, low, both) = passive_bytes n l in
    (
      port_argument a b c d (high_byte n) (low_byte n),
      passive_reply-port_argument a b c d n ha.1 hb.1 hc.1 hd.1,
      rw (← both)
          (parse-port a b c d junk (high_byte n) (low_byte n) e ha.0 hb.0 hc.0 hd.0 high low s),
    )
