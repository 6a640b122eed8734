-- ===== src/Session/Overlap/Logs.antt =====
-- What a call of STOR is still to write, and logs of writes.
use ftps_server.Base.{
  put_at, ℕ, ◌≡◌, refl, ap, Bool, true, false, List, [], ◌∷◌, ◌++◌, Option, none, some,
  if◌then◌else◌, ◌==◌, length, ℤ, pos, ◌-ℤ◌, arith, append-nil, append_assoc, Bool-cases, subst,
  inl, inr, ◌≢◌,
}
use ftps_server.Text.{Bytes}
use ftps_server.Status.{is_true}
use ftps_server.Session.Overlap.{
  StorPoint, opening, pulling, closing, finished, Stor, take_chunk, pull_chunk,
}

-- What the loops take from what `pull` gives.
unfoldable pub taken : Option ℤ → List Bytes → Bytes
taken left [] = []
taken left ([] ∷ rest) = []
taken none ((c ∷ cs) ∷ rest) = (c ∷ cs) ++ taken none rest
taken (some n) ((c ∷ cs) ∷ rest) =
    let more = taken (some (n -ℤ pos (length (c ∷ cs)))) rest in
    if is_true n then (c ∷ cs) ++ more else []

-- What a call has not written yet, of all that it is to write.
abbrev pub unwritten_at : StorPoint → Stor → Bytes
unwritten_at opening s = s.pending ++ taken s.left s.incoming
unwritten_at pulling s = s.pending ++ taken s.left s.incoming
unwritten_at closing s = s.pending
unwritten_at finished s = []

abbrev pub unwritten : Stor → Bytes
unwritten s = unwritten_at s.point s

-- What a call whose stream is open is still to write, and what it is to write from a start on.
abbrev pub to_come : Stor → Bytes
to_come s = if s.is_open then unwritten s else []

abbrev pub due : Stor → Stor → Bytes
due start s = if s.is_open then taken start.left start.incoming else []

pub to_come-open : (s : Stor) → s.is_open ≡ true → to_come s ≡ unwritten s
to_come-open s e = ap (λ o. if o then unwritten s else []) e

pub due-open : (start s : Stor) → s.is_open ≡ true → due start s ≡ taken start.left start.incoming
due-open start s e = ap (λ o. if o then taken start.left start.incoming else []) e

-- A log of writes: who, and what.
abbrev pub all_bytes : List (ℕ × Bytes) → Bytes
all_bytes [] = []
all_bytes ((i, a) ∷ log) = a ++ all_bytes log

abbrev pub bytes_by : ℕ → List (ℕ × Bytes) → Bytes
bytes_by j [] = []
bytes_by j ((i, a) ∷ log) = if i == j then a ++ bytes_by j log else bytes_by j log

pub all_bytes-append :
    (log : List (ℕ × Bytes)) (i : ℕ) (a : Bytes)
    → all_bytes (log ++ (i, a) ∷ []) ≡ all_bytes log ++ a
all_bytes-append [] i a = append-nil a
all_bytes-append ((j, b) ∷ log) i a = rw (all_bytes-append log i a) (simp append_assoc)

pub bytes_by-append_own :
    (j : ℕ) (log : List (ℕ × Bytes)) (i : ℕ) (a : Bytes)
    → (i == j) ≡ true
    → bytes_by j (log ++ (i, a) ∷ []) ≡ bytes_by j log ++ a
bytes_by-append_own j [] i a e = rw e (append-nil a)
bytes_by-append_own j ((k, b) ∷ log) i a e = elim (Bool-cases (k == j)) [
  | inl own ↦ rw (own, bytes_by-append_own j log i a e) (simp append_assoc)
  | inr other ↦ rw other (bytes_by-append_own j log i a e)
]

pub bytes_by-append_other :
    (j : ℕ) (log : List (ℕ × Bytes)) (i : ℕ) (a : Bytes)
    → (i == j) ≡ false
    → bytes_by j (log ++ (i, a) ∷ []) ≡ bytes_by j log
bytes_by-append_other j [] i a e = rw e refl
bytes_by-append_other j ((k, b) ∷ log) i a e = elim (Bool-cases (k == j)) [
  | inl own ↦ rw (own, bytes_by-append_other j log i a e) refl
  | inr other ↦ rw other (bytes_by-append_other j log i a e)
]

-- A call that writes: its stream has opened, or it has not come to that yet.
abbrev pub WritesAt : StorPoint → Bool → Type 0
WritesAt opening is_open = Unit
WritesAt _ is_open = is_open ≡ true

abbrev pub Writes : Stor → Type 0
Writes s = WritesAt s.point s.is_open

-- A call at its start.
abbrev pub IsStart : Bytes → Stor → Type 0
IsStart p s = (s.point ≡ opening) × (s.is_open ≡ false) × (s.path ≡ p) × (s.pending ≡ [])

pub put_at-All {ℓ κ} :
    {A : Type ℓ} (P : ℕ → A → Type κ) (f : ℕ → A) (i : ℕ) (a : A)
    → P i a
    → ((j : ℕ) → (i == j) ≡ false → P j (f j))
    → (j : ℕ) → P j (put_at f i a j)
put_at-All P f i a h others j = elim (Bool-cases (i == j)) [
  | inl e ↦ let same : i ≡ j = ground arith in rw e (subst (λ k. P k a) same h)
  | inr e ↦ rw e (others j e)
]

unwritten-take_chunk :
    (left : Option ℤ) (c : ℕ) (cs : Bytes) (rest : List Bytes) (s : Stor)
    → s.point ≡ pulling
    → s.is_open ≡ true
    → s.left ≡ left
    → unwritten (take_chunk left (c ∷ cs) rest s) ≡ s.pending ++ taken left ((c ∷ cs) ∷ rest)
unfolding taken
unwritten-take_chunk none c cs rest s e o l =
    rw (e, o, l) (append_assoc s.pending (c ∷ cs) (taken none rest))
unwritten-take_chunk (some n) c cs rest s e o l = elim (Bool-cases (is_true n)) [
  | inl more ↦
      rw (more, e, o)
        (append_assoc s.pending (c ∷ cs) (taken (some (n -ℤ pos (length (c ∷ cs)))) rest))
  | inr enough ↦ rw enough (simp append-nil)
]

-- What the stream writes is no longer unwritten.
pub unwritten-append :
    (point : StorPoint) (s : Stor) (a b : Bytes)
    → point ≢ finished
    → s.pending ≡ a ++ b
    → unwritten_at point s ≡ a ++ unwritten_at point (record s { pending = b })
unwritten-append opening s a b n e = rw e (append_assoc a b (taken s.left s.incoming))
unwritten-append pulling s a b n e = rw e (append_assoc a b (taken s.left s.incoming))
unwritten-append closing s a b n e = e
unwritten-append finished s a b n e = absurd (n refl)

-- A round of the loop of an open call moves bytes from what comes to what the stream holds.
pub unwritten-pull_chunk :
    (ms : List Bytes) (s : Stor)
    → s.point ≡ pulling
    → s.is_open ≡ true
    → unwritten (pull_chunk ms s) ≡ s.pending ++ taken s.left ms
unfolding taken
unwritten-pull_chunk [] s e o = simp append-nil
unwritten-pull_chunk ([] ∷ rest) s e o = simp append-nil
unwritten-pull_chunk ((c ∷ cs) ∷ rest) s e o = unwritten-take_chunk s.left c cs rest s e o refl

-- It keeps the path and the stream, and is not back at the opening.
abbrev pub IsOn : StorPoint → Type 0
IsOn pulling = Unit
IsOn closing = Unit
IsOn _ = ⊥

abbrev pub GoesOn : Stor → Stor → Type 0
GoesOn s s' = (s'.path ≡ s.path) × (s'.is_open ≡ s.is_open) × IsOn s'.point

take_chunk-GoesOn :
    (left : Option ℤ) (chunk : Bytes) (rest : List Bytes) (s : Stor)
    → s.point ≡ pulling
    → GoesOn s (take_chunk left chunk rest s)
take_chunk-GoesOn none chunk rest s e = (refl, refl, rw e tt)
take_chunk-GoesOn (some n) chunk rest s e = elim (Bool-cases (is_true n)) [
  | inl more ↦ rw more (refl, refl, rw e tt)
  | inr enough ↦ rw enough (refl, refl, tt)
]

pub pull_chunk-GoesOn :
    (ms : List Bytes) (s : Stor) → s.point ≡ pulling → GoesOn s (pull_chunk ms s)
pull_chunk-GoesOn [] s e = (refl, refl, tt)
pull_chunk-GoesOn ([] ∷ rest) s e = (refl, refl, tt)
pull_chunk-GoesOn ((c ∷ cs) ∷ rest) s e = take_chunk-GoesOn s.left (c ∷ cs) rest s e

pub IsOn-ne : (point : StorPoint) → IsOn point → point ≢ opening
IsOn-ne opening h e = h
IsOn-ne pulling h e = cc
IsOn-ne closing h e = cc
IsOn-ne finished h e = h

pub IsOn-Writes : (point : StorPoint) (o : Bool) → IsOn point → WritesAt point o → o ≡ true
IsOn-Writes opening o h w = absurd h
IsOn-Writes pulling o h w = w
IsOn-Writes closing o h w = w
IsOn-Writes finished o h w = w

pub IsOpen-Writes : (point : StorPoint) (o : Bool) → o ≡ true → WritesAt point o
IsOpen-Writes opening o e = tt
IsOpen-Writes pulling o e = e
IsOpen-Writes closing o e = e
IsOpen-Writes finished o e = e
