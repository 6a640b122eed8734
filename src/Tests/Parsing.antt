-- ===== src/Tests/Parsing.antt =====
-- The parser and the numbers.
use ftps_server.Base.{◌≡◌, ◌≢◌, refl, [], ◌∷◌, arith, ok, length}
use ftps_server.Text.{Bytes, codes, equal}
use ftps_server.Stream.{extract, getline, skip_spaces, word, after_word, read_word}
use ftps_server.Number.{stoi, to_string, shift_or, decimal}
use ftps_server.Command.{
  Command, user, port, site_utime, parse, find_command, read_arguments, read_port_command,
  finish_port, read_port, port_unless, make_port, read_address, CommandType,
}
use ftps_server.Command.Arity.{arity, parse-shape}
use ftps_server.Command.Split.{parse-words, words_onto}
use ftps_server.Command.Port.{parse-port}

abbrev user_line : Bytes
user_line = codes "USER admin\r\nxyz"

abbrev user_command : Command
user_command = record { command = user; arguments = codes "admin" ∷ [] }

parse-user_line : parse user_line ≡ ok user_command
unfolding parse extract skip_spaces read_word word after_word find_command equal read_arguments
parse-user_line = refl

-- With five fields the last one serves twice.
parse-port_five :
    parse (codes "PORT 127,0,0,1,5\r\n")
    ≡ ok (record { command = port; arguments = codes "127.0.0.1" ∷ codes "1285" ∷ [] })
unfolding parse extract skip_spaces read_word word after_word find_command equal read_arguments
    getline read_port_command finish_port read_port port_unless make_port read_address stoi
    to_string shift_or
parse-port_five = refl

parse-words_example : parse user_line ≡ ok user_command
unfolding find_command equal words_onto
parse-words_example = parse-words user_line (λ e. cc)

parse-shape_example :
    (length user_command.arguments ≡ arity user) × ◌≢◌ {A = CommandType} user site_utime
parse-shape_example = parse-shape user_line parse-user_line

parse-port_example :
    parse (codes "PORT 127,0,0,1,156,215\r\n")
    ≡ ok (record { command = port; arguments = codes "127.0.0.1" ∷ codes "40151" ∷ [] })
unfolding decimal
parse-port_example =
    parse-port (codes "127") (codes "0") (codes "0") (codes "1") (codes "\n") 156 215 b'\r'
      (ground arith) (ground arith) (ground arith) (ground arith) (omega arith) (omega arith) refl
