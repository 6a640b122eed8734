-- ===== src/Session/Leaks/Search.antt =====
-- The sockets that the search of PASV for a port opens.
use ftps_server.Base.{
  ℕ, zero, suc, ◌+◌, ◌<◌, ◌≡◌, refl, ◌⊎◌, true, false, pos, arith, Bool-cases, inl, inr,
}
use ftps_server.Text.{Bytes}
use ftps_server.Status.{is_success}
use ftps_server.Net.World.{Net, World}
use ftps_server.Net.Endpoints.{new_listener, listener_on, bind}
use ftps_server.Net.Sockets.{GivesSockets, Uses, new_transport-Uses, listener_on-Uses, bind-Uses}
use ftps_server.Session.State.{Machine}
use ftps_server.Session.Channel.{Allocation, allocate_port, search_port}

-- What a search used that had `attempts` attempts: `failed` of them failed, and the last one may have
-- succeeded.
abbrev Searched : {E : Type 0} → ℕ → World E → Allocation E → ℕ → Type 0
Searched attempts w a failed =
    ((failed ≡ attempts) × (a.bound ≡ false) × Uses w a.world failed 0)
    ⊎ ((failed < attempts) × (a.bound ≡ true) × Uses w a.world (failed + 1) 0)

module _ {E : Type 0} (net : Net E) (gives : GivesSockets net) where
  allocate_port-Searched :
      (n : ℕ) (address : Bytes) (a : Allocation E)
      → a.bound ≡ false
      → let a' = allocate_port net n address a in
        (failed : ℕ) × (a'.next_port ≡ a.next_port + failed) × Searched n a.world a' failed
  unfolding allocate_port
  allocate_port-Searched zero address a b =
      (0, omega arith, inl (refl, b, (omega arith, omega arith)))
  allocate_port-Searched (suc n) address a b =
      let (l, w1) = listener_on net address (pos a.port) (pos 1) a.world in
      let (result, w2) = bind net l w1 in
      let (o1, c1) = listener_on-Uses net gives address (pos a.port) (pos 1) a.world in
      let (o2, c2) = bind-Uses net l w1 in
      elim (Bool-cases (is_success result)) [
        | inl e ↦ rw e (
          0,
          omega arith,
          inr (omega arith, refl, (omega (arith, o1, o2), omega (arith, c1, c2))),
        )
        | inr e ↦
            let (failed, next, searched) =
              allocate_port-Searched n address
                (record {
                  next_port = a.next_port + 1;
                  port = a.next_port;
                  bound = false;
                  listener = l;
                  world = w2;
                })
                refl in
            rw e (
              suc failed,
              omega (arith, next),
              elim searched [
                | inl (all, no_, (o, c)) ↦
                    inl (
                      omega (arith, all),
                      no_,
                      (omega (arith, o1, o2, o), omega (arith, c1, c2, c)),
                    )
                | inr (some_, got, (o, c)) ↦ inr (
                  omega (arith, some_),
                  got,
                  (omega (arith, o1, o2, o), omega (arith, c1, c2, c)),
                )
              ],
            )
      ]

  pub search_port-Searched :
      {F : Type 0} (m : Machine E F)
      → let a = search_port net m in
        (failed : ℕ) × (a.next_port ≡ m.data_port + failed + 1)
        × (((failed ≡ 20) × (a.bound ≡ false) × Uses m.world a.world 21 0)
            ⊎ ((failed < 20) × (a.bound ≡ true) × Uses m.world a.world (failed + 2) 0))
  unfolding search_port new_listener
  search_port-Searched m =
      let (o1, c1) = new_transport-Uses net gives m.world in
      let (failed, next, searched) =
        allocate_port-Searched 20 m.control_channel.address
          (record {
            next_port = m.data_port + 1;
            port = m.data_port;
            bound = false;
            listener = (new_listener net m.world).0;
            world = (new_listener net m.world).1;
          })
          refl in
      (
        failed,
        omega (arith, next),
        elim searched [
          | inl (all, no_, (o, c)) ↦
              inl (all, no_, (omega (arith, o1, o, all), omega (arith, c1, c)))
          | inr (some_, got, (o, c)) ↦
              inr (some_, got, (omega (arith, o1, o), omega (arith, c1, c)))
        ],
      )
