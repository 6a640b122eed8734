-- ===== src/Session/Overlap/Handler.antt =====
-- The handler `command_stor` as a run of the steps of one call.
use ftps_server.Base.{
  ℕ, ◌≡◌, refl, ap, ◌∙◌, Bool, true, false, List, [], ◌∷◌, ◌++◌, Option, none, some, if◌then◌else◌,
  length, ℤ, pos, ◌-ℤ◌, ltb_ℤ, ok, Bool-cases, inl, inr, put_at, subst,
}
use ftps_server.Text.{Bytes, codes}
use ftps_server.Status.{is_true}
use ftps_server.Command.{Command, get_argument}
use ftps_server.FileSystem.Os.{Os}
use ftps_server.Session.State.{Machine, reply}
use ftps_server.Session.Transfer.{
  opened_file, write_chunk, receive_all, receive_sized, receive, is_binary, close_data, notify_put,
  command_stor,
}
use ftps_server.Session.Overlap.{
  pulling, closing, finished, Stor, announced, start_stor, Stors, open_stor, opens, StorReach, here,
  next,
}
use ftps_server.Session.Overlap.Own.{
  put_at-same, StorReach-trans, Ends, Ends-first, call_at, Comes, close-Ends, pull-Comes,
  write-Comes,
}

module _ {F : Type 0} (os : Os F) (i : ℕ) where
  -- The loop is over: what is left to pull stays.
  over-Ends :
      (s : Stors F) (path : Bytes) (binary is_open : Bool) (left : Option ℤ) (rest : List Bytes)
      → Comes os i s (call_at os i closing path binary is_open left rest []) s.files
      → Ends os i s (s.files, rest)
  over-Ends s path binary is_open left rest (t, r, e, f) =
      Ends-first os i (s.files, rest) r
        (rw (← f)
          (close-Ends os i t (call_at os i closing path binary is_open left rest []) e refl refl))

  -- A chunk that the stream has taken is written.
  chunk-Comes :
      (s : Stors F) (path : Bytes) (binary is_open : Bool) (left : Option ℤ) (rest : List Bytes)
      (chunk : Bytes)
      → Comes os i s
          (call_at os i pulling path binary is_open left rest (if is_open then chunk else []))
          s.files
      → Comes os i s
          (call_at os i pulling path binary is_open left rest [])
          (write_chunk os is_open path chunk s.files)
  chunk-Comes s path binary false left rest chunk h = h
  chunk-Comes s path binary true left rest chunk (t, r, e, f) =
      let (u, q, e', f') =
        write-Comes os i t (call_at os i pulling path binary true left rest chunk) e refl refl in
      (u, StorReach-trans os i r q, e', f' ∙ ap (λ (g : F). os.append g path chunk) f)

  all-Ends :
      (ms : List Bytes) (s : Stors F) (path : Bytes) (binary is_open : Bool)
      → s.calls i ≡ call_at os i pulling path binary is_open none ms []
      → Ends os i s (receive_all os is_open path ms s.files)
  unfolding receive_all
  all-Ends [] s path binary is_open e =
      over-Ends s path binary is_open none [] (pull-Comes os i s _ e refl)
  all-Ends ([] ∷ rest) s path binary is_open e =
      over-Ends s path binary is_open none rest (pull-Comes os i s _ e refl)
  all-Ends ((x ∷ xs) ∷ rest) s path binary is_open e =
      let (t, r, e', f) =
        chunk-Comes s path binary is_open none rest (x ∷ xs) (pull-Comes os i s _ e refl) in
      Ends-first os i _ r (rw (← f) (all-Ends rest t path binary is_open e'))

  sized-Ends :
      (ms : List Bytes) (left : ℤ) (s : Stors F) (path : Bytes) (binary is_open : Bool)
      → s.calls i ≡ call_at os i pulling path binary is_open (some left) ms []
      → Ends os i s (receive_sized os left is_open path ms s.files)
  unfolding receive_sized
  sized-Ends [] left s path binary is_open e =
      over-Ends s path binary is_open (some left) [] (pull-Comes os i s _ e refl)
  sized-Ends ([] ∷ rest) left s path binary is_open e =
      over-Ends s path binary is_open (some left) rest (pull-Comes os i s _ e refl)
  sized-Ends ((x ∷ xs) ∷ rest) left s path binary is_open e =
      let less = left -ℤ pos (length (x ∷ xs)) in
      let pulled = pull-Comes os i s _ e refl in
      elim (Bool-cases (is_true left)) [
        | inl more ↦
            let (t, r, e', f) =
              chunk-Comes s path binary is_open (some less) rest (x ∷ xs) (rw more at pulled) in
            rw more (Ends-first os i _ r (rw (← f) (sized-Ends rest less t path binary is_open e')))
        | inr enough ↦
            rw enough (over-Ends s path binary is_open (some left) rest (rw enough at pulled))
      ]

  receive-Ends :
      (size : ℤ) (ms : List Bytes) (s : Stors F) (path : Bytes) (binary is_open : Bool)
      → s.calls i ≡ call_at os i pulling path binary is_open (announced size) ms []
      → Ends os i s (receive os size is_open path ms s.files)
  unfolding receive
  receive-Ends size ms s path binary is_open e = elim (Bool-cases (ltb_ℤ (pos 0) size)) [
    | inl c ↦ rw c (sized-Ends ms size s path binary is_open (rw c at e))
    | inr c ↦ rw c (all-Ends ms s path binary is_open (rw c at e))
  ]

  open-Comes :
      (s : Stors F) (path : Bytes) (binary : Bool) (size : ℤ) (ms : List Bytes)
      → s.calls i ≡ start_stor path binary size ms
      → let (is_open, f) = opened_file s.files (os.open_append s.files path binary) in
        Comes os i s (call_at os i pulling path binary is_open (announced size) ms []) f
  open-Comes s path binary size ms e = (
    record {
      calls = put_at s.calls i (open_stor os (s.calls i) s.files).0;
      files = (open_stor os (s.calls i) s.files).1;
    },
    next here (opens i (ap (λ (x : Stor). x.point) e) refl),
    put_at-same s.calls i _ ∙ ap (λ (x : Stor). (open_stor os x s.files).0) e,
    ap (λ (x : Stor). (open_stor os x s.files).1) e,
  )

module _ {E F : Type 0} (os : Os F) where
  -- Whatever other sessions do, and whether or not the file opens: where a session is at the start of
  -- a STOR, steps of its own lead to the end of it, with the files that the handler leaves and with
  -- what it leaves to be pulled. So the steps that several sessions make allow what the handler does as
  -- a whole.
  pub command_stor-StorReach :
      (c : Command) (m : Machine E F) (name : Bytes) (s : Stors F) (i : ℕ)
      → get_argument c 0 ≡ ok name
      → s.files ≡ m.files
      → s.calls i
        ≡ start_stor (m.folder ++ name) (is_binary m.transfer_type) m.buffer_file_size m.incoming
      → (m' : Machine E F) × (t : Stors F) × (command_stor os c m ≡ ok m')
        × StorReach os s t
        × ((t.calls i).point ≡ finished)
        × (t.files ≡ m'.files)
        × ((t.calls i).incoming ≡ m'.incoming)
  unfolding command_stor close_data
  command_stor-StorReach c m name s i a same e =
      let p = m.folder ++ name in
      let binary = is_binary m.transfer_type in
      let (is_open, f) = opened_file m.files (os.open_append m.files p binary) in
      let m1 = reply (codes "150 STOR file status is OK\r\n") m in
      let (f', later) = receive os m.buffer_file_size is_open p m.incoming f in
      let m2 = close_data (record m1 { files = f'; incoming = later }) in
      let size = m.buffer_file_size in
      let (s1, r, call, there) =
        subst
          (λ (g : F).
            let (o, h) = opened_file g (os.open_append g p binary) in
            Comes os i s (call_at os i pulling p binary o (announced size) m.incoming []) h)
          same (open-Comes os i s p binary size m.incoming e) in
      let end : Ends os i s1 (f', later) =
        rw (← there) (receive-Ends os i size m.incoming s1 p binary is_open call) in
      (
        notify_put p (reply (codes "226 ASCII Transfer complete\r\n") m2),
        end.behind,
        rw a refl,
        StorReach-trans os i r end.reach,
        end.done,
        end.files,
        end.incoming,
      )
