-- ===== src/Command/Arity.antt =====
-- What a parsed command holds: its arguments are the ones that its handler reads.
use ftps_server.Base.{
  ℕ, ◌≡◌, ◌≢◌, refl, subst, ◌⊎◌, inl, inr, Bool, true, false, not, ◌&&◌, ◌||◌, List, [], ◌∷◌,
  Option, none, some, arith, length, Result, Fault, ℤ, ok, err,
}
use ftps_server.Text.{Bytes, equal_iff, is_space, IsWord}
use ftps_server.Stream.{Stream, set_text, open_text, extract, getline}
use ftps_server.Stream.Words.{extract-IsWord}
use ftps_server.Number.{stoi}
use ftps_server.Command.{
  CommandType, Command, user, pass, cwd, port, stor, type, auth, pbsz, prot, allo, dele, rnfr, rnto,
  site_utime, incomplete, PortState, read_address, read_port, make_port, port_unless,
  read_port_command, finish_port, read_arguments, find_command, command_map, parse,
}

-- How many arguments the handler of a command may ask for.
abbrev pub arity : CommandType → ℕ
arity user = 1
arity pass = 1
arity type = 1
arity auth = 1
arity pbsz = 1
arity prot = 1
arity allo = 1
arity dele = 1
arity rnfr = 1
arity rnto = 1
arity site_utime = 1
arity stor = 1
arity cwd = 1
arity port = 2
arity _ = 0

-- What is read for a command of type `t`: an exception, or that command or an incomplete one with
-- its arguments.
data Reads (t : CommandType) : Result Command → Type 0 where
  reads :
      (c : Command)
      → length c.arguments ≡ arity c.command
      → (c.command ≡ t) ⊎ (c.command ≡ incomplete)
      → Reads t (ok c)
  fails : (e : Fault) → Reads t (err e)

Reads-length :
    {t : CommandType} {c : Command} → Reads t (ok c) → length c.arguments ≡ arity c.command
Reads-length (reads c h k) = h

Reads-command :
    {t : CommandType} {c : Command} → Reads t (ok c) → (c.command ≡ t) ⊎ (c.command ≡ incomplete)
Reads-command (reads c h k) = k

make_port-Reads : (address : Bytes) (high low : Result ℤ) → Reads port (make_port address high low)
unfolding make_port
make_port-Reads address (err e) low = fails e
make_port-Reads address (ok high) (err e) = fails e
make_port-Reads address (ok high) (ok low) = reads _ refl (inl refl)

port_unless-Reads :
    (failed : Bool) (address high low : Bytes) → Reads port (port_unless failed address high low)
unfolding port_unless
port_unless-Reads true address high low = reads _ refl (inr refl)
port_unless-Reads false address high low = make_port-Reads address (stoi high) (stoi low)

finish_port-Reads : (o : Option PortState) → Reads port (finish_port o)
unfolding finish_port read_port
finish_port-Reads none = reads _ refl (inr refl)
finish_port-Reads (some s) =
    let (token, stream) = getline s.stream s.token b',' in
    port_unless-Reads stream.fail s.address token (extract stream token).0

read_arguments-Reads : (t : CommandType) (s : Stream) → Reads t (read_arguments t s)
unfolding read_arguments read_port_command
read_arguments-Reads port s =
    let (argument, s') = extract s [] in
    finish_port-Reads
      (read_address 4 (record { stream = set_text s' argument; address = []; token = [] }))
read_arguments-Reads _ s = reads _ refl (inl refl)

parse-Reads :
    (line : Bytes) {c : Command}
    → parse line ≡ ok c
    → Reads (find_command command_map (extract (open_text line) []).0) (ok c)
unfolding parse
parse-Reads line e = subst (Reads _) e (
    read_arguments-Reads (find_command command_map (extract (open_text line) []).0)
      (extract (open_text line) []).1)

-- A parsed command has as many arguments as its handler asks for.
pub parse-arity :
    (line : Bytes) {c : Command} → parse line ≡ ok c → length c.arguments ≡ arity c.command
parse-arity line e = Reads-length (parse-Reads line e)

unfoldable pub has_space : Bytes → Bool
has_space [] = false
has_space (c ∷ cs) = is_space c || has_space cs

not-has_space : (t : Bytes) → IsWord t → has_space t ≡ false
unfolding has_space
not-has_space [] h = refl
not-has_space (c ∷ cs) h = ground (arith, not-has_space cs h.1)

abbrev pub is_site : CommandType → Bool
is_site site_utime = true
is_site _ = false

-- Every key of SITE UTIME has white space in it.
abbrev pub spaced : List (Bytes × CommandType) → Bool
spaced [] = true
spaced ((key, value) ∷ table) = (not (is_site value) || has_space key) && spaced table

pub find_command-spaced :
    (table : List (Bytes × CommandType)) (name : Bytes)
    → spaced table ≡ true
    → IsWord name
    → is_site (find_command table name) ≡ false
unfolding find_command
find_command-spaced [] name h w = refl
find_command-spaced ((key, value) ∷ table) name h w =
    ground (arith, equal_iff key name, not-has_space name w, find_command-spaced table name)

-- No line is parsed as SITE UTIME: a command's name is a word, and that key has a blank in it.
parse-ne-site_utime : (line : Bytes) {c : Command} → parse line ≡ ok c → c.command ≢ site_utime
unfolding has_space
parse-ne-site_utime line e site = ground (
  arith,
  Reads-command (parse-Reads line e),
  find_command-spaced command_map (extract (open_text line) []).0 refl
      (extract-IsWord (open_text line) [] tt),
)

-- A parsed command holds exactly as many arguments as its handler may ask for, so that no handler
-- reads behind their end, and it is never SITE UTIME, for whose key the table asks for a blank in a
-- word.
pub parse-shape :
    (line : Bytes) {c : Command}
    → parse line ≡ ok c
    → (length c.arguments ≡ arity c.command) × (c.command ≢ site_utime)
parse-shape line e = (parse-arity line e, parse-ne-site_utime line e)
