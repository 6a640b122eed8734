-- ===== src/Server/Stopping.antt =====
-- The end of the server: when its thread ends, and when `stop` returns.
use ftps_server.Base.{[], ℕ, ◌+◌, ◌≤◌, ◌≡◌, ◌≢◌, refl, ◌⊎◌, inl, inr, arith, length, ℤ, pos}
use ftps_server.Text.{Bytes}
use ftps_server.Net.World.{Net, World}
use ftps_server.Session.State.{Indeterminate, clear}
use ftps_server.Server.{
  Server, running, stopping, ThreadPoint, binding, announcing, checking, accepting, finished, free,
  joining, stopped, start, request_stop, announce, check, new_server, bind_address, accept_client,
  server_thread, thread_step, Step, starts, runs, stops, joins, registers, unregisters, Reach, here,
  next,
}

-- The loop has begun and nobody sets the status back.
pub record IsLost {E : Type 0} (s : Server E) : Type 0 where
  pub owner : s.owner ≡ joining
  pub status : s.status ≡ running
  pub thread : (s.thread ≡ checking) ⊎ (s.thread ≡ accepting)

-- What holds of a server at all times.
pub record IsOrderly {E : Type 0} (s : Server E) : Type 0 where
  pub ended : (s.thread ≢ finished) ⊎ (s.owner ≢ free)
  pub looping :
      (s.status ≡ running) ⊎ (s.owner ≢ free) ⊎ ((s.thread ≢ checking) × (s.thread ≢ accepting))
  pub returned : (s.owner ≢ stopped) ⊎ (s.thread ≡ finished)

-- A stop that the loop sees, with at most `n` sessions before it.
pub record IsStopping {E : Type 0} (n : ℕ) (s : Server E) : Type 0 where
  pub status : s.status ≡ stopping
  pub owner : s.owner ≢ free
  pub sessions :
      ((s.thread ≡ accepting) × (length s.client_sessions ≤ n))
      ⊎ (((s.thread ≡ checking) ⊎ (s.thread ≡ finished)) × (length s.client_sessions ≤ n + 1))

abbrev any : Indeterminate
any = record {
  buffer_file_size = pos 0;
  protection_buffer_size = pos 0;
  protection_level = clear;
  client_message = [];
}

module _ {E : Type 0} (net : Net E) where
  server_thread-IsLost :
      (junk : Indeterminate) (p : ThreadPoint) (s : Server E)
      → s.thread ≡ p
      → IsLost s
      → IsLost (server_thread net p junk s)
  unfolding server_thread check accept_client
  server_thread-IsLost junk binding s e h = ground arith
  server_thread-IsLost junk announcing s e h = ground arith
  server_thread-IsLost junk checking s e h = ground arith
  server_thread-IsLost junk accepting s e h = ground arith
  server_thread-IsLost junk _ s e h = h

  Step-IsLost : {s t : Server E} → Step net s t → IsLost s → IsLost t
  Step-IsLost {s} (runs junk e) h = rw e (server_thread-IsLost junk s.thread s refl h)
  Step-IsLost (starts n e) h = ground arith
  Step-IsLost (stops n f e) h = ground arith
  Step-IsLost (joins j f e) h = ground arith
  Step-IsLost (registers o v e) h = rw e (ground arith)
  Step-IsLost (unregisters o v e) h = rw e (ground arith)

  Reach-IsLost : {s t : Server E} → IsLost s → Reach net s t → IsLost t
  Reach-IsLost h here = h
  Reach-IsLost h (next r st) = Step-IsLost st (Reach-IsLost h r)

  -- A stop that comes before the thread has set the status is lost: once the address is bound, the
  -- owner can get into a call of `join` that never returns, whatever happens then.
  pub lost_stop :
      (address : Bytes) (port : ℤ) (w : World E)
      → (bind_address net (start (new_server net address port w))).thread ≡ announcing
      → (s : Server E) × Reach net (new_server net address port w) s
        × ((t : Server E) → Reach net s t → (t.owner ≡ joining) × (t.status ≡ running))
  unfolding server_thread announce bind_address
  lost_stop address port w bound =
      let s0 = new_server net address port w in
      let s1 = bind_address net (start s0) in
      (
        announce (request_stop s1),
        next
            (next (next (next here (starts refl refl)) (runs any refl)) (stops (λ e. cc) refl refl))
            (runs any (rw bound refl)),
        λ t r.
            let lost = Reach-IsLost (record { owner = refl; status = refl; thread = inl refl }) r in
            (lost.owner, lost.status),
      )

  server_thread-IsOrderly :
      (junk : Indeterminate) (p : ThreadPoint) (s : Server E)
      → s.thread ≡ p
      → IsOrderly s
      → IsOrderly (server_thread net p junk s)
  unfolding server_thread check announce accept_client bind_address
  server_thread-IsOrderly junk binding s e h = ground arith
  server_thread-IsOrderly junk announcing s e h = ground arith
  server_thread-IsOrderly junk checking s e h = ground arith
  server_thread-IsOrderly junk accepting s e h = ground arith
  server_thread-IsOrderly junk _ s e h = h

  Step-IsOrderly : {s t : Server E} → Step net s t → IsOrderly s → IsOrderly t
  Step-IsOrderly {s} (runs junk e) h = rw e (server_thread-IsOrderly junk s.thread s refl h)
  Step-IsOrderly (starts n e) h = ground arith
  Step-IsOrderly (stops n f e) h = ground arith
  Step-IsOrderly (joins j f e) h = ground arith
  Step-IsOrderly (registers o v e) h = rw e (ground arith)
  Step-IsOrderly (unregisters o v e) h = rw e (ground arith)

  -- A server's thread ends its loop only behind a call of `stop`, and `stop` returns only behind the
  -- end of the loop.
  pub Reach-IsOrderly :
      (address : Bytes) (port : ℤ) (w : World E) {s : Server E}
      → Reach net (new_server net address port w) s
      → IsOrderly s
  Reach-IsOrderly address port w here = ground arith
  Reach-IsOrderly address port w (next r st) = Step-IsOrderly st (Reach-IsOrderly address port w r)

  server_thread-IsStopping :
      (n : ℕ) (junk : Indeterminate) (p : ThreadPoint) (s : Server E)
      → s.thread ≡ p
      → IsStopping n s
      → IsStopping n (server_thread net p junk s)
  unfolding server_thread check accept_client
  server_thread-IsStopping n junk binding s e h = ground arith
  server_thread-IsStopping n junk announcing s e h = ground arith
  server_thread-IsStopping n junk checking s e h = ground arith
  server_thread-IsStopping n junk accepting s e h = ground arith
  server_thread-IsStopping n junk _ s e h = h

  Step-IsStopping : (n : ℕ) {s t : Server E} → Step net s t → IsStopping n s → IsStopping n t
  Step-IsStopping n {s} (runs junk e) h = rw e (server_thread-IsStopping n junk s.thread s refl h)
  Step-IsStopping n (starts d e) h = ground arith
  Step-IsStopping n (stops d f e) h = ground arith
  Step-IsStopping n (joins j f e) h = ground arith
  Step-IsStopping n (registers o v e) h = rw e (ground arith)
  Step-IsStopping n (unregisters o v e) h = rw e (ground arith)

  Reach-IsStopping : (n : ℕ) {s t : Server E} → IsStopping n s → Reach net s t → IsStopping n t
  Reach-IsStopping n h here = h
  Reach-IsStopping n h (next r st) = Step-IsStopping n st (Reach-IsStopping n h r)

  IsStopping-ends :
      (n : ℕ) (junk junk' : Indeterminate) (s : Server E)
      → IsStopping n s
      → (thread_step net junk' (thread_step net junk s)).thread ≡ finished
  unfolding server_thread check accept_client
  IsStopping-ends n junk junk' s h = elim h.sessions [
    | inl (a, _) ↦ rw (a, h.status) refl
    | inr (inl c, _) ↦ rw (c, h.status) refl
    | inr (inr f, _) ↦ rw f refl
  ]

  -- A stop while the loop runs is seen whatever happens then: at most one more client is served, and
  -- the thread is at its end two of its steps later.
  pub stop_lem :
      (s : Server E) {t : Server E}
      → (s.thread ≡ checking) ⊎ (s.thread ≡ accepting)
      → Reach net (request_stop s) t
      → (t.status ≡ stopping)
        × (length t.client_sessions ≤ length s.client_sessions + 1)
        × ((junk junk' : Indeterminate)
            → (thread_step net junk' (thread_step net junk t)).thread ≡ finished)
  stop_lem s {t} p r =
      let n = length s.client_sessions in
      let begun : IsStopping n (request_stop s) = ground arith in
      let h = Reach-IsStopping n begun r in
      (h.status, ground (arith, h.sessions), (λ junk junk'. IsStopping-ends n junk junk' t h))
