-- ===== src/Session/Overlap/Alone.antt =====
-- One call of STOR, with nothing between its steps.
use ftps_server.Base.{
  ◌≡◌, refl, ap, ◌∙◌, true, List, [], ◌∷◌, ◌++◌, none, some, length, ℤ, pos, ◌-ℤ◌, ltb_ℤ, ok,
  append-nil, append_assoc, Bool-cases, inl, inr,
}
use ftps_server.Text.{Bytes, codes}
use ftps_server.Status.{is_true}
use ftps_server.Command.{Command, get_argument}
use ftps_server.FileSystem.Os.{Os}
use ftps_server.FileSystem.Lawful.{IsLawful}
use ftps_server.FileSystem.File.{or_nothing}
use ftps_server.Net.Transport.{close}
use ftps_server.Session.State.{Machine, reply}
use ftps_server.Session.Transfer.{
  receive_all, receive_sized, receive, is_binary, close_data, notify_put, command_stor,
}
use ftps_server.Session.Overlap.{announced}
use ftps_server.Session.Overlap.Logs.{taken}

module _ {F : Type 0} (os : Os F) (lawful : IsLawful os) (p : Bytes) where
  content-receive_all :
      (ms : List Bytes) (f : F) (old : Bytes)
      → lawful.content f p ≡ some old
      → lawful.content (receive_all os true p ms f).0 p ≡ some (old ++ taken none ms)
  unfolding receive_all taken
  content-receive_all [] f old h = h ∙ simp append-nil
  content-receive_all ([] ∷ ms) f old h = h ∙ simp append-nil
  content-receive_all ((c ∷ cs) ∷ ms) f old h =
      content-receive_all ms (os.append f p (c ∷ cs)) (old ++ c ∷ cs)
        (lawful.content-append f p old (c ∷ cs) h)
      ∙ ap some (append_assoc old (c ∷ cs) (taken none ms))

  content-receive_sized :
      (left : ℤ) (ms : List Bytes) (f : F) (old : Bytes)
      → lawful.content f p ≡ some old
      → lawful.content (receive_sized os left true p ms f).0 p ≡ some (old ++ taken (some left) ms)
  unfolding receive_sized taken
  content-receive_sized left [] f old h = h ∙ simp append-nil
  content-receive_sized left ([] ∷ ms) f old h = h ∙ simp append-nil
  content-receive_sized left ((c ∷ cs) ∷ ms) f old h =
      let less = left -ℤ pos (length (c ∷ cs)) in
      elim (Bool-cases (is_true left)) [
        | inl more ↦ rw more (
            content-receive_sized less ms (os.append f p (c ∷ cs)) (old ++ c ∷ cs)
              (lawful.content-append f p old (c ∷ cs) h)
            ∙ ap some (append_assoc old (c ∷ cs) (taken (some less) ms)))
        | inr enough ↦ rw enough (h ∙ simp append-nil)
      ]

  content-receive :
      (size : ℤ) (ms : List Bytes) (f : F) (old : Bytes)
      → lawful.content f p ≡ some old
      → lawful.content (receive os size true p ms f).0 p ≡ some (old ++ taken (announced size) ms)
  unfolding receive
  content-receive size ms f old h = elim (Bool-cases (ltb_ℤ (pos 0) size)) [
    | inl e ↦ rw e (content-receive_sized size ms f old h)
    | inr e ↦ rw e (content-receive_all ms f old h)
  ]

module _ {E F : Type 0} (os : Os F) (lawful : IsLawful os) where
  -- STOR into a file that opens, whatever size is announced and whatever comes: the file holds what it
  -- held and then exactly the bytes that a call of STOR among others is to write; the data channel is
  -- closed, and the rest of the session stays.
  pub command_stor-taken :
      (c : Command) (m : Machine E F) (name : Bytes) {f : F}
      → get_argument c 0 ≡ ok name
      → os.open_append m.files (m.folder ++ name) (is_binary m.transfer_type) ≡ some f
      → let p = m.folder ++ name in
        (m' : Machine E F) × (command_stor os c m ≡ ok m')
        × (lawful.content m'.files p
            ≡ some (
                or_nothing (lawful.content m.files p)
                ++ taken (announced m.buffer_file_size) m.incoming))
        × (m'.data_channel.socket ≡ pos 0)
        × (m'.session ≡ record m.session { data_channel = m'.data_channel })
  unfolding command_stor close_data
  command_stor-taken c m name {f} a o =
      let p = m.folder ++ name in
      let m1 = reply (codes "150 STOR file status is OK\r\n") m in
      let (f', later) = receive os m.buffer_file_size true p m.incoming f in
      let m2 = close_data (record m1 { files = f'; incoming = later }) in
      (
        notify_put p (reply (codes "226 ASCII Transfer complete\r\n") m2),
        rw (a, o) refl,
        content-receive os lawful p m.buffer_file_size m.incoming f _
            (lawful.content-open_append m.files p (is_binary m.transfer_type) o),
        unfold close in refl,
        refl,
      )
