-- ===== src/Session/Settings.antt =====
-- The handlers that set a member or only answer: SYST, PWD, TYPE, FEAT, PBSZ, PROT and ALLO.
use ftps_server.Base.{◌++◌, if◌then◌else◌, Result, ok, ◌>>=◌}
use ftps_server.Text.{Bytes, codes, equal}
use ftps_server.Number.{stoi}
use ftps_server.Command.{Command, get_argument}
use ftps_server.Session.State.{
  TransferType, binary, ascii, ProtectionLevel, clear, safe, confidential, private, Machine, reply,
  update,
}

-- The level for the letter of PROT; for another one the level stays.
unfoldable pub protection_of : Bytes → ProtectionLevel → ProtectionLevel
unfolding equal
protection_of level old =
    if equal level (codes "C")
    then clear
    else (if equal level (codes "S")
        then safe
        else (if equal level (codes "E")
            then confidential
            else (if equal level (codes "P") then private else old)))

module _ {E F : Type 0} where
  unfoldable pub command_syst : Command → Machine E F → Result (Machine E F)
  command_syst c m = ok (reply (codes "215 UNIX Type: L8\r\n") m)

  unfoldable pub command_pwd : Command → Machine E F → Result (Machine E F)
  command_pwd c m = ok (reply (codes "257 " ++ (m.folder ++ codes "\r\n")) m)

  abbrev pub set_transfer_type : TransferType → Machine E F → Machine E F
  set_transfer_type t m =
      reply (codes "250 TYPE command is successful\r\n")
        (update (λ s. record s { transfer_type = t }) m)

  unfoldable pub command_type : Command → Machine E F → Result (Machine E F)
  unfolding get_argument equal
  command_type c m = do
    type ← get_argument c 0
    ok (
        if equal type (codes "I")
        then set_transfer_type binary m
        else (if equal type (codes "A")
            then set_transfer_type ascii m
            else reply (codes "500 TYPE specified type is not supported\r\n") m))

  unfoldable pub command_feat : Command → Machine E F → Result (Machine E F)
  command_feat c m =
      ok (reply (codes "211 FEAT Extensions supported:\n AUTH TLS\n PBSZ\n PROT\n211 END\r\n") m)

  unfoldable pub command_pbsz : Command → Machine E F → Result (Machine E F)
  unfolding get_argument stoi
  command_pbsz c m = do
    text ← get_argument c 0
    size ← stoi text
    ok (
        reply (codes "200 PBSZ command is successful\r\n")
          (update (λ s. record s { protection_buffer_size = size }) m))

  unfoldable pub command_prot : Command → Machine E F → Result (Machine E F)
  unfolding get_argument protection_of
  command_prot c m = do
    level ← get_argument c 0
    ok (
        reply (codes "200 PROT command is successful\r\n")
          (update (λ s. record s { protection_level = protection_of level s.protection_level }) m))

  unfoldable pub command_allo : Command → Machine E F → Result (Machine E F)
  unfolding get_argument stoi
  command_allo c m = do
    text ← get_argument c 0
    size ← stoi text
    ok (
        reply (codes "200 ALLO command is successful\r\n")
          (update (λ s. record s { buffer_file_size = size }) m))
