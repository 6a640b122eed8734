-- ===== src/System/Lines.antt =====
-- A round of the loop of a session in which one line comes.
use ftps_server.Base.{
  ℕ, ◌≤◌, ◌≡◌, refl, false, List, [], ◌∷◌, ◌++◌, some, get_elem?, length, ok, ◌+◌,
}
use ftps_server.Text.{Bytes, codes, is_empty}
use ftps_server.Command.{Command, dele, stor, parse}
use ftps_server.FileSystem.Os.{Os}
use ftps_server.Net.World.{Net}
use ftps_server.Session.State.{Machine, terminated, is_state}
use ftps_server.Session.Dispatch.{dispatch, overwrite}
use ftps_server.Session.Lines.{
  IsArgument, HasNoZero, EndsBehind, line_of, HasNoZero-line_of, length-line_of, handle_buffer-line,
  parse-dele, parse-stor,
}
use ftps_server.Session.Folder.{command_dele}
use ftps_server.Session.Transfer.{command_stor}
use ftps_server.Server.{Client, reading}
use ftps_server.System.{
  System, machine_of, with_machine, read_message, session_step, RunStep, session_runs,
}

module _ {E F : Type 0} (net : Net E) (os : Os F) where
  -- A line whose command is done without an exception: the session reads on.
  read_message-line :
      (n : ℕ) (line buffer : Bytes) (c : Command) (m m' : Machine E F)
      → EndsBehind n buffer
      → length line ≤ n
      → HasNoZero line
      → is_empty line ≡ false
      → ((junk : Bytes) → parse (line ++ junk) ≡ ok c)
      → is_state m.state terminated ≡ false
      → dispatch net os c.command c m ≡ ok m'
      → read_message net os line buffer m ≡ ok (reading, m')
  unfolding read_message
  read_message-line n line buffer c m m' b l z some_line e live d =
      let handled = handle_buffer-line net os n line buffer c m z l b e in
      rw (live, some_line, handled, d) refl

  -- A line that a session which reads commands gets, as a step of the program.
  pub RunStep-line :
      (s : System E F) (i : ℕ) (c : Client) (line : Bytes) (chunks : List Bytes) (m : Machine E F)
      → s.crashed ≡ false
      → get_elem? s.server.client_sessions i ≡ some c
      → c.point ≡ reading
      → read_message net os line c.buffer (machine_of s c.session chunks) ≡ ok (reading, m)
      → RunStep net os s (with_machine s i reading (overwrite c.buffer line) m)
  unfolding session_step
  RunStep-line s i c line chunks m alive at_i point r =
      session_runs i c line chunks reading m alive at_i (rw point r) (rw point refl)

  pub read_message-dele :
      (n : ℕ) (name buffer : Bytes) (m m' : Machine E F)
      → EndsBehind n buffer
      → length name + 7 ≤ n
      → IsArgument name
      → is_state m.state terminated ≡ false
      → command_dele os (record { command = dele; arguments = name ∷ [] }) m ≡ ok m'
      → let line = line_of (codes "DELE ") name in
        read_message net os line buffer m ≡ ok (reading, m')
  unfolding dispatch
  read_message-dele n name buffer m m' b l a live d =
      let z : HasNoZero (codes "DELE ") = (refl, (refl, (refl, (refl, (refl, tt))))) in
      read_message-line n (line_of (codes "DELE ") name) buffer
        (record { command = dele; arguments = name ∷ [] }) m m' b
        (length-line_of (codes "DELE ") name refl l) (HasNoZero-line_of (codes "DELE ") name z a)
        refl (λ (junk : Bytes). parse-dele name junk a) live d

  pub read_message-stor :
      (n : ℕ) (name buffer : Bytes) (m m' : Machine E F)
      → EndsBehind n buffer
      → length name + 7 ≤ n
      → IsArgument name
      → is_state m.state terminated ≡ false
      → command_stor os (record { command = stor; arguments = name ∷ [] }) m ≡ ok m'
      → let line = line_of (codes "STOR ") name in
        read_message net os line buffer m ≡ ok (reading, m')
  unfolding dispatch
  read_message-stor n name buffer m m' b l a live d =
      let z : HasNoZero (codes "STOR ") = (refl, (refl, (refl, (refl, (refl, tt))))) in
      read_message-line n (line_of (codes "STOR ") name) buffer
        (record { command = stor; arguments = name ∷ [] }) m m' b
        (length-line_of (codes "STOR ") name refl l) (HasNoZero-line_of (codes "STOR ") name z a)
        refl (λ (junk : Bytes). parse-stor name junk a) live d
