-- ===== src/Session/Passive.antt =====
-- PASV: the search for a port, and the port that the reply announces.
use ftps_server.Base.{
  ℕ, zero, suc, ◌+◌, ◌*◌, ◌≤◌, ◌^◌, ◌<◌, ◌≡◌, ◌⊎◌, refl, ap, ◌∙◌, true, false, false, List, ◌∷◌,
  arith, pos, ℤ, Bool-cases, inl, inr,
}
use ftps_server.Text.{Bytes}
use ftps_server.Status.{is_success}
use ftps_server.Net.World.{Net, World, NetCall, listened}
use ftps_server.Net.Endpoints.{Listener, listener_on, bind, to_port}
use ftps_server.Session.State.{Machine}
use ftps_server.Session.Channel.{Allocation, allocate_port, search_port, high_byte, low_byte}

-- What a search leaves that started with port `first` and `attempts` attempts: either none of them
-- succeeded, or the last call made the listener listen on the last port.
pub record IsSearched {E : Type 0} (first attempts : ℕ) (address : Bytes) (a : Allocation E)
    : Type 0 where
  pub in_order : a.port + 1 ≡ a.next_port
  pub from_first : first ≤ a.port
  pub outcome :
      ((a.bound ≡ false) × (a.port ≡ first + attempts))
      ⊎ ((a.bound ≡ true)
          × (a.port < first + attempts)
          × (a.listener.port ≡ pos a.port)
          × (a.listener.address ≡ address)
          × ((calls : List NetCall) × (a.world.calls ≡ listened a.listener.socket (pos 1) ∷ calls)))

module _ {E : Type 0} (net : Net E) where
  listener_on-port :
      (address : Bytes) (port queue : ℤ) (w : World E)
      → ((listener_on net address port queue w).0.port ≡ port)
        × ((listener_on net address port queue w).0.address ≡ address)
        × ((listener_on net address port queue w).0.queue_size ≡ queue)
  unfolding listener_on
  listener_on-port address port queue w = (refl, refl, refl)

  bind-listened :
      (l : Listener) (w : World E)
      → is_success (bind net l w).0 ≡ true
      → (calls : List NetCall) × ((bind net l w).1.calls ≡ listened l.socket l.queue_size ∷ calls)
  unfolding bind
  bind-listened l w h = (w.calls, ground arith)

  allocate_port-IsSearched :
      (n first attempts : ℕ) (address : Bytes) (a : Allocation E)
      → a.bound ≡ false
      → a.port + 1 ≡ a.next_port
      → first ≤ a.port
      → a.port + n ≡ first + attempts
      → IsSearched first attempts address (allocate_port net n address a)
  unfolding allocate_port
  allocate_port-IsSearched zero first attempts address a b i f l = record {
    in_order = i;
    from_first = f;
    outcome = inl (b, omega arith);
  }
  allocate_port-IsSearched (suc n) first attempts address a b i f l =
      let (l1, w1) = listener_on net address (pos a.port) (pos 1) a.world in
      elim (Bool-cases (is_success (bind net l1 w1).0)) [
        | inl e ↦
            let (calls, ec) = bind-listened l1 w1 e in
            let (lp, la, lq) = listener_on-port address (pos a.port) (pos 1) a.world in
            rw e (record {
              in_order = i;
              from_first = f;
              outcome = inr (
                refl,
                omega arith,
                lp,
                la,
                (calls, ec ∙ ap (λ q. listened l1.socket q ∷ calls) lq),
              );
            })
        | inr e ↦ rw e (
            allocate_port-IsSearched n first attempts address _ refl refl (omega arith)
              (omega arith))
      ]

  -- PASV tries ports in order from the next one on: all twenty attempts fail, or its last call made a
  -- listener for the address listen on exactly the port that it goes on to announce.
  pub search_port-IsSearched :
      {F : Type 0} (m : Machine E F)
      → IsSearched m.data_port 20 m.control_channel.address (search_port net m)
  unfolding search_port
  search_port-IsSearched m =
      allocate_port-IsSearched 20 m.data_port 20 m.control_channel.address _ refl refl (omega arith)
        (omega arith)

-- For a counter that fits an `int`, the two numbers of the reply are bytes, and make up the 16-bit port
-- that `bind` is called with, also where the counter has gone past 65535.
pub passive_bytes :
    (port : ℕ)
    → port < 2 ^ 31
    → (high_byte port < 256)
      × (low_byte port < 256)
      × (high_byte port * 256 + low_byte port ≡ to_port (pos port))
passive_bytes port h = omega arith
