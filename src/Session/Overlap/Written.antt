-- ===== src/Session/Overlap/Written.antt =====
-- What the file holds while several calls of STOR write to it.
use ftps_server.Base.{ℕ, ◌≡◌, refl, ap, ◌∙◌, List, ◌++◌, append-nil, Bool-cases, sym, inl, inr}
use ftps_server.Text.{Bytes}
use ftps_server.FileSystem.Os.{Os}
use ftps_server.FileSystem.Lawful.{IsLawful}
use ftps_server.FileSystem.File.{or_nothing}
use ftps_server.Session.Overlap.{Stors, StorReach}
use ftps_server.Session.Overlap.Logs.{
  taken, unwritten, all_bytes, bytes_by, IsOpen-Writes, to_come, due, to_come-open, due-open,
  IsStart,
}
use ftps_server.Session.Overlap.Steps.{IsCall, StorReach-IsLogged}

module _ {F : Type 0} (os : Os F) (lawful : IsLawful os) where
  -- A call from its start on: what it wrote and what it is still to write is what its loop takes.
  bytes_by-due :
      (p : Bytes) (s t : Stors F) (log : List (ℕ × Bytes)) (i : ℕ)
      → IsStart p (s.calls i)
      → IsCall os lawful p s t.files log i (t.calls i)
      → bytes_by i log ++ to_come (t.calls i) ≡ due (s.calls i) (t.calls i)
  bytes_by-due p s t log i (first, shut, path, nothing) c =
      let all : unwritten (s.calls i) ≡ taken (s.calls i).left (s.calls i).incoming =
        rw first (rw nothing refl) in
      elim (Bool-cases (t.calls i).is_open) [
        | inl o ↦
            ap (λ (b : Bytes). bytes_by i log ++ b) (to_come-open (t.calls i) o)
            ∙ c.own (IsOpen-Writes (t.calls i).point _ o)
            ∙ all
            ∙ sym (due-open (s.calls i) (t.calls i) o)
        | inr o ↦ rw o (append-nil (bytes_by i log) ∙ c.silent o)
      ]

  -- STOR to the same path in any number of sessions at the same time, each pull, open, write and close
  -- in any order: the file holds what it held and then a sequence of writes. In it the writes of each
  -- call whose stream opened, and then what it is still to write, which is nothing behind its end, are
  -- exactly the bytes that its loop takes from its client, in order; the other calls write nothing. So
  -- no byte is lost or written twice, though the bytes of several clients may be mixed.
  pub StorReach-content :
      (p : Bytes) (s t : Stors F)
      → ((i : ℕ) → IsStart p (s.calls i))
      → StorReach os s t
      → (log : List (ℕ × Bytes)) × (or_nothing (lawful.content t.files p)
          ≡ or_nothing (lawful.content s.files p) ++ all_bytes log)
        × ((i : ℕ) → bytes_by i log ++ to_come (t.calls i) ≡ due (s.calls i) (t.calls i))
  StorReach-content p s t h r =
      let (log, l) = StorReach-IsLogged os lawful p s h r in
      (log, l.whole, λ i. bytes_by-due p s t log i (h i) (l.calls i))
