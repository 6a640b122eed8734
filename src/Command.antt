-- ===== src/Command.antt =====
-- src/ftp_command.h and src/ftp_command.cpp: the commands, and the constructor that parses a line.
pub mod Arity
pub mod Split
pub mod Port
pub mod Unterminated
use ftps_server.Base.{
  ℕ, zero, suc, ◌≡◌, refl, Bool, true, false, List, [], ◌∷◌, ◌++◌, Option, none, some,
  if◌then◌else◌, get_elem?, Result, ok, err, out_of_range, ◌>>=◌, ℤ, pos,
}
use ftps_server.Text.{Bytes, codes, equal, is_empty}
use ftps_server.Stream.{Stream, open_text, extract, set_text, getline}
use ftps_server.Number.{stoi, to_string, shift_or}

pub data CommandType : Type 0 where
  user pass syst pwd cwd port list stor type quit feat auth pbsz prot pasv allo : CommandType
  dele rnfr rnto site_utime unknown incomplete : CommandType

pub record Command : Type 0 where
  pub command : CommandType
  pub arguments : List Bytes

-- `FTP_MAP_COMMAND`.
abbrev pub command_map : List (Bytes × CommandType)
command_map =
    (codes "USER", user)
    ∷ (codes "PASS", pass)
    ∷ (codes "SYST", syst)
    ∷ (codes "PWD", pwd)
    ∷ (codes "CWD", cwd)
    ∷ (codes "PORT", port)
    ∷ (codes "STOR", stor)
    ∷ (codes "TYPE", type)
    ∷ (codes "QUIT", quit)
    ∷ (codes "LIST", list)
    ∷ (codes "FEAT", feat)
    ∷ (codes "AUTH", auth)
    ∷ (codes "PBSZ", pbsz)
    ∷ (codes "PROT", prot)
    ∷ (codes "PASV", pasv)
    ∷ (codes "ALLO", allo)
    ∷ (codes "DELE", dele)
    ∷ (codes "RNFR", rnfr)
    ∷ (codes "RNTO", rnto)
    ∷ (codes "SITE UTIME", site_utime)
    ∷ []

unfoldable pub find_command : List (Bytes × CommandType) → Bytes → CommandType
find_command [] name = unknown
find_command ((key, value) ∷ table) name = if equal key name then value else find_command table name

-- `address` empty: the field is the address; otherwise it follows a dot.
abbrev pub join_address : Bytes → Bytes → Bytes
join_address [] token = token
join_address (c ∷ cs) token = (c ∷ cs) ++ b'.' ∷ token

pub record PortState : Type 0 where
  pub stream : Stream
  pub address : Bytes
  pub token : Bytes

-- The loop over the four fields of the address; `none` is the early return.
unfoldable pub read_address : ℕ → PortState → Option PortState
read_address zero s = some s
read_address (suc n) s =
    let (token, stream) = getline s.stream s.token b',' in
    let rest =
      read_address n
        (record { stream = stream; address = join_address s.address token; token = token }) in
    if stream.fail then none else rest

-- The two numbers of the port in one, and the arguments; the first number is read first.
unfoldable pub make_port : Bytes → Result ℤ → Result ℤ → Result Command
make_port address (err e) low = err e
make_port address (ok high) (err e) = err e
make_port address (ok high) (ok low) =
    ok (record { command = port; arguments = address ∷ to_string (shift_or high low) ∷ [] })

-- Behind `getline` for the first number; the flag is its failure.
unfoldable pub port_unless : Bool → Bytes → Bytes → Bytes → Result Command
port_unless true address high low = ok (record { command = incomplete; arguments = [] })
port_unless false address high low = make_port address (stoi high) (stoi low)

-- The port behind the address: a field up to a comma, then a word.
unfoldable pub read_port : PortState → Result Command
read_port s =
    let (token, stream) = getline s.stream s.token b',' in
    port_unless stream.fail s.address token (extract stream token).0

unfoldable pub finish_port : Option PortState → Result Command
finish_port none = ok (record { command = incomplete; arguments = [] })
finish_port (some s) = read_port s

unfoldable pub read_port_command : Stream → Result Command
read_port_command stream =
    let (argument, stream') = extract stream [] in
    finish_port
      (read_address 4 (record { stream = set_text stream' argument; address = []; token = [] }))

-- One argument behind the command's name.
abbrev pub one_argument : CommandType → Stream → Result Command
one_argument t stream = ok (record { command = t; arguments = (extract stream []).0 ∷ [] })

abbrev pub no_argument : CommandType → Result Command
no_argument t = ok (record { command = t; arguments = [] })

-- The switch on the command found.
unfoldable pub read_arguments : CommandType → Stream → Result Command
read_arguments user s = one_argument user s
read_arguments pass s = one_argument pass s
read_arguments type s = one_argument type s
read_arguments auth s = one_argument auth s
read_arguments pbsz s = one_argument pbsz s
read_arguments prot s = one_argument prot s
read_arguments allo s = one_argument allo s
read_arguments dele s = one_argument dele s
read_arguments rnfr s = one_argument rnfr s
read_arguments rnto s = one_argument rnto s
read_arguments site_utime s =
    let (time, s') = extract s [] in
    ok (record { command = site_utime; arguments = (extract s' time).0 ∷ [] })
read_arguments stor s = one_argument stor s
read_arguments cwd s = one_argument cwd s
read_arguments port s = read_port_command s
read_arguments t s = no_argument t

-- The constructor `ftp_command(command_line)`.
unfoldable pub parse : Bytes → Result Command
parse line =
    let (name, stream) = extract (open_text line) [] in
    read_arguments (find_command command_map name) stream

-- `get_argument(index)`: `std::vector::at`.
unfoldable pub get_argument : Command → ℕ → Result Bytes
get_argument c i = elim (get_elem? c.arguments i) [ none ↦ err out_of_range | some a ↦ ok a ]
