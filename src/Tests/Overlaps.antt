-- ===== src/Tests/Overlaps.antt =====
-- Two sessions that store to one file at the same time.
use ftps_server.Base.{
  put_at, ℕ, Bool-cases, inl, inr, ◌≡◌, ◌≢◌, ◌-ℤ◌, refl, true, List, [], ◌∷◌, ◌++◌, if◌then◌else◌,
  ◌==◌, pos, some, ok,
}
use ftps_server.Text.{Bytes, codes, equal}
use ftps_server.Command.{stor, get_argument}
use ftps_server.FileSystem.File.{or_nothing}
use ftps_server.Session.State.{Machine}
use ftps_server.Session.Transfer.{command_stor}
use ftps_server.Session.Overlap.{
  pulling, finished, start_stor, pull_chunk, Stors, open_stor, StorReach, opens, pulls, writes,
  closes, here, next,
}
use ftps_server.Session.Overlap.Logs.{IsStart, taken, all_bytes, bytes_by, to_come, due}
use ftps_server.Session.Overlap.Written.{StorReach-content}
use ftps_server.Session.Overlap.Handler.{command_stor-StorReach}
use ftps_server.Session.Overlap.Alone.{command_stor-taken}
use ftps_server.Tests.Store.{Store, store_os, store_os-IsLawful, found, held}
use ftps_server.Tests.Stores.{on_store, with_name}

abbrev file_path : Bytes
file_path = codes "b"

abbrev both : Stors Store
both = record {
  calls = λ i.
      if i == 0
      then start_stor file_path true (pos 0) (codes "one" ∷ [])
      else start_stor file_path true (pos 3) (codes "two" ∷ codes "lost" ∷ []);
  files = (codes "b", codes "old") ∷ [];
}

abbrev opened : ℕ → Stors Store → Stors Store
opened i s = record {
  calls = put_at s.calls i (open_stor store_os (s.calls i) s.files).0;
  files = (open_stor store_os (s.calls i) s.files).1;
}

abbrev pulled : ℕ → Stors Store → Stors Store
pulled i s = record s { calls = put_at s.calls i (pull_chunk (s.calls i).incoming (s.calls i)) }

abbrev wrote : ℕ → Bytes → Bytes → Stors Store → Stors Store
wrote i a b s = record {
  calls = put_at s.calls i (record (s.calls i) { pending = b });
  files = store_os.append s.files (s.calls i).path a;
}

abbrev shut : ℕ → Stors Store → Stors Store
shut i s = record s { calls = put_at s.calls i (record (s.calls i) { point = finished }) }

abbrev filled : Stors Store
filled = pulled 1 (pulled 0 (opened 1 (opened 0 both)))

abbrev emptied : Stors Store
emptied =
    wrote 0 (codes "ne") [] (wrote 1 (codes "two") [] (wrote 0 (codes "o") (codes "ne") filled))

abbrev last : Stors Store
last = shut 1 (shut 0 (pulled 1 (pulled 0 emptied)))

mixed : found last.files file_path ≡ some (codes "oldotwone")
unfolding held equal
mixed = refl

unfinished : pulling ≢ finished
unfinished e = cc

to_filled : StorReach store_os both filled
unfolding held equal
to_filled =
    next (next (next (next here (opens 0 refl refl)) (opens 1 refl refl)) (pulls 0 refl refl))
      (pulls 1 refl refl)

to_emptied : StorReach store_os both emptied
unfolding held equal
to_emptied =
    next
      (next (next to_filled (writes 0 (codes "o") (codes "ne") refl unfinished refl refl))
        (writes 1 (codes "two") [] refl unfinished refl refl))
      (writes 0 (codes "ne") [] refl unfinished refl refl)

run : StorReach store_os both last
unfolding held equal ◌-ℤ◌
run =
    next
      (next (next (next to_emptied (pulls 0 refl refl)) (pulls 1 refl refl))
        (closes 0 refl refl refl))
      (closes 1 refl refl refl)

both-IsStart : (i : ℕ) → IsStart file_path (both.calls i)
both-IsStart i = elim (Bool-cases (i == 0)) [
  | inl e ↦ rw e (refl, refl, refl, refl)
  | inr e ↦ rw e (refl, refl, refl, refl)
]

StorReach-content_example :
    (log : List (ℕ × Bytes)) × (or_nothing (found last.files file_path)
      ≡ codes "old" ++ all_bytes log)
    × ((i : ℕ) → bytes_by i log ++ to_come (last.calls i) ≡ due (both.calls i) (last.calls i))
unfolding held equal
StorReach-content_example =
    StorReach-content store_os store_os-IsLawful file_path both last both-IsStart run

command_stor-taken_example :
    let m = on_store (codes "new" ∷ codes "er" ∷ [] ∷ []) in
    (m' : Machine ℕ Store) × (command_stor store_os (with_name stor (codes "b")) m ≡ ok m')
    × (found m'.files (codes "b") ≡ some (codes "oldnewer"))
    × (m'.data_channel.socket ≡ pos 0)
    × (m'.session ≡ record m.session { data_channel = m'.data_channel })
unfolding get_argument taken held equal
command_stor-taken_example =
    command_stor-taken store_os store_os-IsLawful (with_name stor (codes "b"))
      (on_store (codes "new" ∷ codes "er" ∷ [] ∷ [])) (codes "b") refl refl

command_stor-StorReach_example :
    (m' : Machine ℕ Store) × (t : Stors Store) × (command_stor store_os
        (with_name stor (codes "b"))
        (on_store (codes "one" ∷ []))
      ≡ ok m')
    × StorReach store_os both t
    × ((t.calls 0).point ≡ finished)
    × (t.files ≡ m'.files)
    × ((t.calls 0).incoming ≡ m'.incoming)
unfolding get_argument
command_stor-StorReach_example =
    command_stor-StorReach store_os (with_name stor (codes "b")) (on_store (codes "one" ∷ []))
      (codes "b") both 0 refl refl refl
