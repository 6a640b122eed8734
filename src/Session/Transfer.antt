-- ===== src/Session/Transfer.antt =====
-- The handlers that use the data channel: LIST and STOR.
use ftps_server.Base.{
  Bool, true, false, List, [], ◌∷◌, ◌++◌, Option, none, some, if◌then◌else◌, length, ℤ, pos, ◌-ℤ◌,
  ltb_ℤ, Result, ok, ◌>>=◌, ℕ,
}
use ftps_server.Text.{Bytes, codes}
use ftps_server.Status.{is_true}
use ftps_server.Command.{Command, get_argument}
use ftps_server.Observer.{file_put, notify_observers}
use ftps_server.FileSystem.Os.{Os}
use ftps_server.FileSystem.Listing.{get_files, get_specify_files}
use ftps_server.Net.World.{World, signalled, note}
use ftps_server.Net.Transport.{push, close}
use ftps_server.Session.State.{TransferType, binary, ascii, Machine, reply}

-- The names of a listing, a line for each.
unfoldable pub list_lines : List Bytes → Bytes
list_lines [] = []
list_lines (name ∷ names) = name ++ codes "\n" ++ list_lines names

abbrev pub is_binary : TransferType → Bool
is_binary binary = true
is_binary ascii = false

-- The `ofstream` behind its constructor: whether it is open, and the files.
abbrev pub opened_file {ℓ} : {F : Type ℓ} → F → Option F → Bool × F
opened_file f none = (false, f)
opened_file f (some f') = (true, f')

module _ {E : Type 0} where
  unfoldable pub signal_all : List (ℕ × Bytes) → World E → World E
  signal_all [] w = w
  signal_all ((o, message) ∷ calls) w = signal_all calls (note (signalled o message) w)

module _ {F : Type 0} (os : Os F) where
  -- `write` on a stream that did not open does nothing.
  abbrev pub write_chunk : Bool → Bytes → Bytes → F → F
  write_chunk is_open p chunk f = if is_open then os.append f p chunk else f

  -- The loop up to the end of the data: the files, and what is not pulled.
  unfoldable pub receive_all : Bool → Bytes → List Bytes → F → F × List Bytes
  receive_all is_open p [] f = (f, [])
  receive_all is_open p ([] ∷ chunks) f = (f, chunks)
  receive_all is_open p ((c ∷ cs) ∷ chunks) f =
      receive_all is_open p chunks (write_chunk is_open p (c ∷ cs) f)

  -- The loop with a size announced: a chunk is pulled first, and then the size is looked at.
  unfoldable pub receive_sized : ℤ → Bool → Bytes → List Bytes → F → F × List Bytes
  unfolding ◌-ℤ◌
  receive_sized left is_open p [] f = (f, [])
  receive_sized left is_open p ([] ∷ chunks) f = (f, chunks)
  receive_sized left is_open p ((c ∷ cs) ∷ chunks) f =
      let rest =
        receive_sized (left -ℤ pos (length (c ∷ cs))) is_open p chunks
          (write_chunk is_open p (c ∷ cs) f) in
      if is_true left then rest else (f, chunks)

  -- The choice of the loop.
  unfoldable pub receive : ℤ → Bool → Bytes → List Bytes → F → F × List Bytes
  unfolding receive_all receive_sized
  receive size is_open p chunks f =
      if ltb_ℤ (pos 0) size
      then receive_sized size is_open p chunks f
      else receive_all is_open p chunks f

module _ {E F : Type 0} where
  abbrev pub push_data : Bytes → Machine E F → Machine E F
  push_data message m = record m { world = push m.data_channel message m.world }

  unfoldable pub close_data : Machine E F → Machine E F
  unfolding close
  close_data m =
      let (data_channel', w) = close m.data_channel m.world in
      record m { session = record m.session { data_channel = data_channel' }; world = w }

  abbrev pub notify_put : Bytes → Machine E F → Machine E F
  notify_put p m = record m { world = signal_all (notify_observers m.notifier file_put p) m.world }

module _ {E F : Type 0} (os : Os F) where
  unfoldable pub command_list : Command → Machine E F → Result (Machine E F)
  unfolding get_specify_files list_lines close_data
  command_list c m =
      let names = (get_files os m.files m.folder []).1 in
      let m1 = reply (codes "150 ASCII data connection\r\n") m in
      let m2 = push_data (list_lines names) m1 in
      ok (close_data (reply (codes "226 ASCII Transfer complete\r\n") m2))

  unfoldable pub command_stor : Command → Machine E F → Result (Machine E F)
  unfolding get_argument receive close_data notify_observers signal_all
  command_stor c m = do
    name ← get_argument c 0
    let p = m.folder ++ name
    let (is_open, f) = opened_file m.files (os.open_append m.files p (is_binary m.transfer_type))
    let m1 = reply (codes "150 STOR file status is OK\r\n") m
    let (f', chunks) = receive os m.buffer_file_size is_open p m.incoming f
    let m2 = close_data (record m1 { files = f'; incoming = chunks })
    ok (notify_put p (reply (codes "226 ASCII Transfer complete\r\n") m2))
