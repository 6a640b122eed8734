-- ===== src/Tests/Transfers.antt =====
-- The reply of PASV.
use ftps_server.Base.{◌≡◌, refl, [], ◌∷◌, ◌++◌, arith, pos, ok}
use ftps_server.Text.{Bytes, codes}
use ftps_server.Number.{decimal}
use ftps_server.Command.{port, parse}
use ftps_server.Net.Endpoints.{to_port}
use ftps_server.Session.Channel.{passive_reply}
use ftps_server.Session.Announce.{parse-passive_reply}

parse-passive_reply_example :
    (argument : Bytes) × (passive_reply (codes "127.0.0.1") 40151
      ≡ codes "227 Entering Passive Mode (" ++ (argument ++ codes ")\r\n"))
    × (parse (codes "PORT " ++ (argument ++ codes "\r\n"))
        ≡ ok (record {
          command = port;
          arguments = codes "127.0.0.1" ∷ decimal (to_port (pos 40151)) ∷ [];
        }))
parse-passive_reply_example =
    parse-passive_reply (codes "127") (codes "0") (codes "0") (codes "1") (codes "\n") 40151 b'\r'
      (ground arith) (ground arith) (ground arith) (ground arith) (omega arith) refl
