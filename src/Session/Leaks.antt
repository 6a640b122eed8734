-- ===== src/Session/Leaks.antt =====
-- The sockets that PASV opens and closes.
pub mod Search
use ftps_server.Base.{
  ℕ, zero, suc, ◌+◌, ◌<◌, ◌≤◌, ◌≡◌, refl, ◌⊎◌, Bool, true, false, ◌&&◌, pos, arith, ℤ, Result, ok,
  err, ◌>>=◌, Bool-cases, inl, inr,
}
use ftps_server.Text.{Bytes, codes}
use ftps_server.Status.{is_success}
use ftps_server.Command.{Command}
use ftps_server.Net.World.{Net, World}
use ftps_server.Net.Transport.{Transport, set_tls}
use ftps_server.Net.Endpoints.{Listener, new_listener, listener_on, bind, accept}
use ftps_server.Net.Sockets.{
  GivesSockets, sockets_opened, sockets_closed, Uses, push-Uses, close-Uses, new_transport-Uses,
  listener_on-Uses, bind-Uses, accept-Uses, UsesOf, set_tls-Uses,
}
use ftps_server.Session.State.{Machine, reply}
use ftps_server.Session.Channel.{
  command_pasv, secure_data, is_private, close_listener, answer_passive, enter_passive,
  passive_reply, with_allocation, Allocation, allocate_port, search_port,
}
use ftps_server.Session.Leaks.Search.{search_port-Searched}

-- What a handler that returns opened and closed, the counter of ports being as it was.
abbrev Leaves : {E F : Type 0} → Machine E F → ℕ → ℕ → Result (Machine E F) → Type 0
Leaves m o c (ok m') = (m'.data_port ≡ m.data_port) × Uses m.world m'.world o c
Leaves m o c (err f) = Unit

module _ {E F : Type 0} (net : Net E) where
  keep_data-Leaves :
      (r : Result (ℤ × Transport × World E)) (m : Machine E F)
      → UsesOf net m.world 0 0 r
      → Leaves m 0 0 (
          r >>= λ (result, data_channel', w).
          ok (record m { session = record m.session { data_channel = data_channel' }; world = w }))
  keep_data-Leaves (ok (result, data_channel', w)) m u = (refl, u)
  keep_data-Leaves (err f) m u = tt

  secure_data-Leaves : (m : Machine E F) → Leaves m 0 0 (secure_data net m)
  unfolding secure_data
  secure_data-Leaves m =
      elim (Bool-cases (m.control_channel.secure && is_private m.protection_level)) [
        | inl e ↦
            rw (e, secure_data)
              (keep_data-Leaves (set_tls net m.data_channel m.world) m
                (set_tls-Uses net m.data_channel m.world))
        | inr e ↦ rw (e, secure_data) (refl, (omega arith, omega arith))
      ]

  close_listener-Leaves :
      (m m2 : Machine E F) (n : ℕ) (r : Result (Machine E F)) (l : Listener)
      → m2.data_port ≡ m.data_port
      → Uses m.world m2.world n 0
      → Leaves m2 0 0 r
      → Leaves m n 1 (r >>= λ m3. ok (close_listener net l m3))
  close_listener-Leaves m m2 n (ok m3) l p (o1, c1) (p2, (o2, c2)) =
      let (o3, c3) = close-Uses l.transport m3.world in
      (omega (arith, p, p2), (omega (arith, o1, o2, o3), omega (arith, c1, c2, c3)))
  close_listener-Leaves m m2 n (err f) l p u g = tt

  enter_passive-Leaves :
      (address : Bytes) (a : Allocation E) (m : Machine E F)
      → (n : ℕ) × (n ≤ 1) × Leaves m n 1 (enter_passive net address a m)
  unfolding enter_passive
  enter_passive-Leaves address a m =
      let text = passive_reply address a.port in
      let m1 = reply text m in
      let (result, data_channel', w) = accept net a.listener m1.data_channel m1.world in
      let m2 = record m1 {
        session = record m1.session { data_channel = data_channel' };
        world = w;
      } in
      let (o1, c1) = push-Uses m.control_channel text m.world in
      let (n, most, (o2, c2)) = accept-Uses net a.listener m1.data_channel m1.world in
      (
        n,
        most,
        close_listener-Leaves m m2 n (secure_data net m2) a.listener refl
            (omega (arith, o1, o2), omega (arith, c1, c2)) (secure_data-Leaves m2),
      )

  -- What PASV used, where it returned.
  abbrev PasvUses : Machine E F → ℕ → Result (Machine E F) → Type 0
  PasvUses m failed (ok m') =
      (m'.data_port ≡ m.data_port + failed + 1)
      × (((failed ≡ 20) × Uses m.world m'.world 21 0)
          ⊎ ((failed < 20)
              × ((accepted : ℕ) × (accepted ≤ 1)
                  × Uses m.world m'.world (failed + 2 + accepted) 1)))
  PasvUses m failed (err f) = Unit

  abbrev Found : Machine E F → Allocation E → ℕ → Bool → Type 0
  Found m a failed b =
      ((failed ≡ 20) × (b ≡ false) × Uses m.world a.world 21 0)
      ⊎ ((failed < 20) × (b ≡ true) × Uses m.world a.world (failed + 2) 0)

  Leaves-PasvUses :
      (m : Machine E F) (a : Allocation E) (failed n : ℕ) (r : Result (Machine E F))
      → a.next_port ≡ m.data_port + failed + 1
      → failed < 20
      → n ≤ 1
      → Uses m.world a.world (failed + 2) 0
      → Leaves (with_allocation net a m) n 1 r
      → PasvUses m failed r
  Leaves-PasvUses m a failed n (ok m') next few most (o1, c1) (p, (o2, c2)) =
      (omega (arith, next, p), inr (few, (n, most, (omega (arith, o1, o2), omega (arith, c1, c2)))))
  Leaves-PasvUses m a failed n (err f) next few most u l = tt

  answer_passive-PasvUses :
      (b : Bool) (a : Allocation E) (m : Machine E F) (failed : ℕ)
      → a.next_port ≡ m.data_port + failed + 1
      → Found m a failed b
      → PasvUses m failed (answer_passive net b a (with_allocation net a m))
  unfolding answer_passive
  answer_passive-PasvUses false a m failed next (inl (all, no_, (o1, c1))) =
      let (o2, c2) = push-Uses m.control_channel (codes "500 PASV command if failure") a.world in
      (next, inl (all, (omega (arith, o1, o2), omega (arith, c1, c2))))
  answer_passive-PasvUses false a m failed next (inr (few, got, u)) =
      absurd (let bad : false ≡ true = got in cc)
  answer_passive-PasvUses true a m failed next (inl (all, no_, u)) =
      absurd (let bad : true ≡ false = no_ in cc)
  answer_passive-PasvUses true a m failed next (inr (few, got, u)) =
      let (n, most, left) =
        enter_passive-Leaves m.control_channel.address a (with_allocation net a m) in
      Leaves-PasvUses m a failed n _ next few most u left

  command_pasv-PasvUses :
      GivesSockets net
      → (c : Command) (m : Machine E F) → (failed : ℕ) × PasvUses m failed (command_pasv net c m)
  unfolding command_pasv
  command_pasv-PasvUses gives c m =
      let (failed, next, found) = search_port-Searched net gives m in
      let a = search_port net m in (failed, answer_passive-PasvUses a.bound a m failed next found)

  -- Where `socket` does not fail, a PASV that returns has taken a port for each attempt that failed and one more. If all twenty
  -- failed it has opened 21 sockets and closed none; otherwise it has opened two more than attempts
  -- failed, and the one that it accepted, if any, and has closed one. So each failed attempt, and each
  -- call, leaves a socket open that nothing knows.
  pub command_pasv-Uses :
      GivesSockets net
      → (c : Command) (m m' : Machine E F) → command_pasv net c m ≡ ok m'
      → (failed : ℕ) × (m'.data_port ≡ m.data_port + failed + 1)
        × (((failed ≡ 20) × Uses m.world m'.world 21 0)
            ⊎ ((failed < 20)
                × ((accepted : ℕ) × (accepted ≤ 1)
                    × Uses m.world m'.world (failed + 2 + accepted) 1)))
  command_pasv-Uses gives c m m' e =
      let (failed, uses) = command_pasv-PasvUses gives c m in
      let (port, used) = rw e at uses in (failed, port, used)
