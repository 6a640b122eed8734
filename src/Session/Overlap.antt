-- ===== src/Session/Overlap.antt =====
-- src/ftp_session.cpp, `command_stor` in several sessions at the same time: each call of `pull`, each
-- write that the stream makes to the file, and its opening and closing, is a step of its own.
pub mod Logs
pub mod Steps
pub mod Written
pub mod Alone
pub mod Own
pub mod Handler
use ftps_server.Base.{
  ℕ, ◌≡◌, ◌≢◌, Bool, true, false, List, [], ◌∷◌, ◌++◌, Option, none, some, if◌then◌else◌, ◌==◌,
  length, ℤ, pos, ◌-ℤ◌, ltb_ℤ, put_at,
}
use ftps_server.Text.{Bytes}
use ftps_server.Status.{is_true}
use ftps_server.FileSystem.Os.{Os}
use ftps_server.Session.Transfer.{opened_file}

-- Where a call of `command_stor` is.
pub data StorPoint : Type 0 where
  opening pulling closing finished : StorPoint

-- Its variables. `left` is `file_total_size`, `none` in the loop that does not use it; `incoming` is
-- what `pull` goes on to give, and `pending` what the stream has taken and not yet written.
pub record Stor : Type 0 where
  pub path : Bytes
  pub binary : Bool
  pub point : StorPoint
  pub is_open : Bool
  pub left : Option ℤ
  pub incoming : List Bytes
  pub pending : Bytes

-- The size that the loop counts down, if one was announced.
abbrev pub announced : ℤ → Option ℤ
announced size = if ltb_ℤ (pos 0) size then some size else none

-- A call at its start.
abbrev pub start_stor : Bytes → Bool → ℤ → List Bytes → Stor
start_stor path binary size incoming = record {
  path = path;
  binary = binary;
  point = opening;
  is_open = false;
  left = announced size;
  incoming = incoming;
  pending = [];
}

-- `file_transfer.write`: nothing, if the stream did not open.
abbrev pub written : Bool → Bytes → Bytes → Bytes
written is_open pending chunk = if is_open then pending ++ chunk else pending

-- A chunk that is not empty: with a size announced, the size is looked at first.
abbrev pub take_chunk : Option ℤ → Bytes → List Bytes → Stor → Stor
take_chunk none chunk rest s = record s {
  incoming = rest;
  pending = written s.is_open s.pending chunk;
}
take_chunk (some n) chunk rest s =
    if is_true n
    then record s {
      incoming = rest;
      pending = written s.is_open s.pending chunk;
      left = some (n -ℤ pos (length chunk));
    }
    else record s { incoming = rest; point = closing }

-- A round of the loop, on what `pull` gives.
abbrev pub pull_chunk : List Bytes → Stor → Stor
pull_chunk [] s = record s { point = closing }
pull_chunk ([] ∷ rest) s = record s { incoming = rest; point = closing }
pull_chunk ((c ∷ cs) ∷ rest) s = take_chunk s.left (c ∷ cs) rest s

-- The calls of all sessions, by a number for each, on one file system.
pub record Stors (F : Type 0) : Type 0 where
  pub calls : ℕ → Stor
  pub files : F

module _ {F : Type 0} (os : Os F) where
  -- `std::ofstream file_transfer(file_path, transfer_mode)`.
  abbrev pub open_stor : Stor → F → Stor × F
  open_stor s f =
      let (is_open, f') = opened_file f (os.open_append f s.path s.binary) in
      (record s { is_open = is_open; point = pulling }, f')

  -- A step of the call with a number; when a stream writes, and how much of what it holds, is the
  -- library's choice, but `close` is not over before all is written.
  pub data StorStep (s s' : Stors F) : Type 0 where
    opens :
        (i : ℕ)
        → (s.calls i).point ≡ opening
        → s' ≡ record {
          calls = put_at s.calls i (open_stor (s.calls i) s.files).0;
          files = (open_stor (s.calls i) s.files).1;
        }
        → StorStep s s'
    pulls :
        (i : ℕ)
        → (s.calls i).point ≡ pulling
        → s' ≡ record s { calls = put_at s.calls i (pull_chunk (s.calls i).incoming (s.calls i)) }
        → StorStep s s'
    writes :
        (i : ℕ) (a b : Bytes)
        → (s.calls i).is_open ≡ true
        → (s.calls i).point ≢ finished
        → (s.calls i).pending ≡ a ++ b
        → s' ≡ record {
          calls = put_at s.calls i (record (s.calls i) { pending = b });
          files = os.append s.files (s.calls i).path a;
        }
        → StorStep s s'
    closes :
        (i : ℕ)
        → (s.calls i).point ≡ closing
        → (s.calls i).pending ≡ []
        → s' ≡ record s { calls = put_at s.calls i (record (s.calls i) { point = finished }) }
        → StorStep s s'

  pub data StorReach (s : Stors F) : Stors F → Type 0 where
    here : StorReach s s
    next : {t u : Stors F} → StorReach s t → StorStep t u → StorReach s u
