-- ===== src/Session/Receive.antt =====
-- STOR: which bytes reach the file.
use ftps_server.Base.{ℕ, ◌+◌, ◌≡◌, ◌≢◌, refl, Bool, List, [], ◌∷◌, ◌++◌, length, All}
use ftps_server.Text.{Bytes}
use ftps_server.FileSystem.Os.{Os}
use ftps_server.Session.Transfer.{write_chunk, receive_all}

-- The chunks of data, none of them empty.
abbrev pub AreChunks : List Bytes → Type 0
AreChunks = All (λ (c : Bytes). c ≢ [])

abbrev pub total : List Bytes → ℕ
total [] = 0
total (c ∷ cs) = length c + total cs

module _ {F : Type 0} (os : Os F) where
  -- The writes of the chunks, in order.
  abbrev pub write_all : Bool → Bytes → List Bytes → F → F
  write_all is_open p [] f = f
  write_all is_open p (c ∷ cs) f = write_all is_open p cs (write_chunk os is_open p c f)

  -- With no size announced, every chunk up to the end of the data is written, in order, and what
  -- comes behind the end is not pulled.
  pub receive_all_lem :
      (is_open : Bool) (p : Bytes) (chunks later : List Bytes) (f : F)
      → AreChunks chunks
      → receive_all os is_open p (chunks ++ [] ∷ later) f ≡ (write_all is_open p chunks f, later)
  unfolding receive_all
  receive_all_lem is_open p [] later f h = refl
  receive_all_lem is_open p ([] ∷ chunks) later f h = absurd (h.0 refl)
  receive_all_lem is_open p ((c ∷ cs) ∷ chunks) later f h =
      receive_all_lem is_open p chunks later (write_chunk os is_open p (c ∷ cs) f) h.1
