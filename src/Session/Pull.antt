-- ===== src/Session/Pull.antt =====
-- The loops of STOR on the data channel itself, against the loops on a list of chunks.
use ftps_server.Base.{
  ℕ, zero, suc, ◌≤◌, inl, inr, Bool-cases, ◌≡◌, refl, Bool, List, [], ◌∷◌, arith, length,
  if◌then◌else◌, ltb_ℤ, ℤ, pos, ◌-ℤ◌, Result, ok, err, blocked,
}
use ftps_server.Text.{Bytes, is_empty}
use ftps_server.Status.{is_true}
use ftps_server.FileSystem.Os.{Os}
use ftps_server.Net.World.{Net, World}
use ftps_server.Net.Transport.{Transport, pull}
use ftps_server.Session.Transfer.{write_chunk, receive_all, receive_sized, receive}

module _ {E : Type 0} (net : Net E) (t : Transport) where
  -- The next calls of `pull` on a channel give these messages, and leave this world.
  abbrev pub Pulls : World E → List Bytes → World E → Type 0
  Pulls w [] w' = w ≡ w'
  Pulls w (c ∷ cs) w' = ((pull net t 2000 w).0 ≡ c) × Pulls (pull net t 2000 w).1 cs w'

-- The end of the data is among the messages.
abbrev pub HasEnd : List Bytes → Type 0
HasEnd [] = ⊥
HasEnd ([] ∷ ms) = Unit
HasEnd ((c ∷ cs) ∷ ms) = HasEnd ms

module _ {E F : Type 0} (net : Net E) (os : Os F) (t : Transport) (is_open : Bool) (p : Bytes) where
  -- The two loops, with fuel for the calls of `pull`; `blocked` without fuel.
  unfoldable pub pull_all : ℕ → World E → F → Result (F × World E)
  pull_all zero w f = err blocked
  pull_all (suc n) w f =
      let (chunk, w') = pull net t 2000 w in
      let rest = pull_all n w' (write_chunk os is_open p chunk f) in
      if is_empty chunk then ok (f, w') else rest

  unfoldable pub pull_sized : ℕ → ℤ → World E → F → Result (F × World E)
  pull_sized zero left w f = err blocked
  pull_sized (suc n) left w f =
      let (chunk, w') = pull net t 2000 w in
      let rest = pull_sized n (left -ℤ pos (length chunk)) w' (write_chunk os is_open p chunk f) in
      if is_empty chunk then ok (f, w') else (if is_true left then rest else ok (f, w'))

  -- The choice of the loop.
  unfoldable pub receive_from : ℕ → ℤ → World E → F → Result (F × World E)
  unfolding pull_all pull_sized
  receive_from n size w f = if ltb_ℤ (pos 0) size then pull_sized n size w f else pull_all n w f

  -- A loop on the channel ended with the outcome of the loop on the list, and the channel goes on with
  -- what that left.
  abbrev Agrees : Result (F × World E) → F × List Bytes → World E → Type 0
  Agrees r (f, later) w' = (w : World E) × (r ≡ ok (f, w)) × Pulls net t w later w'

  pull_all-Agrees :
      (n : ℕ) (messages : List Bytes) (w w' : World E) (f : F)
      → length messages ≤ n
      → HasEnd messages
      → Pulls net t w messages w'
      → Agrees (pull_all n w f) (receive_all os is_open p messages f) w'
  unfolding pull_all receive_all
  pull_all-Agrees n [] w w' f l h ps = absurd h
  pull_all-Agrees zero (m ∷ ms) w w' f l h ps = absurd (omega arith)
  pull_all-Agrees (suc n) ([] ∷ ms) w w' f l h (e, ps) = ((pull net t 2000 w).1, rw e refl, ps)
  pull_all-Agrees (suc n) ((c ∷ cs) ∷ ms) w w' f l h (e, ps) = rw e (
      pull_all-Agrees n ms (pull net t 2000 w).1 w' (write_chunk os is_open p (c ∷ cs) f)
        (omega arith) h ps)

  pull_sized-Agrees :
      (n : ℕ) (left : ℤ) (messages : List Bytes) (w w' : World E) (f : F)
      → length messages ≤ n
      → HasEnd messages
      → Pulls net t w messages w'
      → Agrees (pull_sized n left w f) (receive_sized os left is_open p messages f) w'
  unfolding pull_sized receive_sized
  pull_sized-Agrees n left [] w w' f l h ps = absurd h
  pull_sized-Agrees zero left (m ∷ ms) w w' f l h ps = absurd (omega arith)
  pull_sized-Agrees (suc n) left ([] ∷ ms) w w' f l h (e, ps) =
      ((pull net t 2000 w).1, rw e refl, ps)
  pull_sized-Agrees (suc n) left ((c ∷ cs) ∷ ms) w w' f l h (e, ps) =
      elim (Bool-cases (is_true left)) [
        | inl more ↦
            rw (e, more)
              (pull_sized-Agrees n (left -ℤ pos (length (c ∷ cs))) ms (pull net t 2000 w).1 w'
                (write_chunk os is_open p (c ∷ cs) f) (omega arith) h ps)
        | inr enough ↦ rw (e, enough) ((pull net t 2000 w).1, refl, ps)
      ]

  -- Where the calls of `pull` give a list of messages with the end of the data in it, and there is fuel
  -- for each of them, STOR on the channel ends with the files that it has on the list, and leaves on the
  -- channel what it leaves of the list.
  pub receive_from-receive :
      (n : ℕ) (size : ℤ) (messages : List Bytes) (w w' : World E) (f : F)
      → length messages ≤ n
      → HasEnd messages
      → Pulls net t w messages w'
      → let (f', later) = receive os size is_open p messages f in
        (w'' : World E) × (receive_from n size w f ≡ ok (f', w'')) × Pulls net t w'' later w'
  unfolding receive_from receive
  receive_from-receive n size messages w w' f l h ps = elim (Bool-cases (ltb_ℤ (pos 0) size)) [
    | inl e ↦ rw e (pull_sized-Agrees n size messages w w' f l h ps)
    | inr e ↦ rw e (pull_all-Agrees n messages w w' f l h ps)
  ]
