-- ===== src/Main.antt =====
-- src/main.cpp: a server on 127.0.0.1 and the default port, with one observer of stored files.
pub mod Stored
use ftps_server.Base.{ℕ, ◌≡◌, false, List, [], ◌∷◌, ◌++◌, if◌then◌else◌, ◌==◌}
use ftps_server.Text.{Bytes, codes}
use ftps_server.Observer.{file_put}
use ftps_server.FileSystem.Os.{Os}
use ftps_server.Net.World.{Net, World, NetCall, signalled}
use ftps_server.Server.{start, register, new_default_server}
use ftps_server.System.{System, system_of, RunStep}

-- `main_observer::notify_signal`: the line that it prints.
abbrev pub notify_signal : Bytes → Bytes
notify_signal info = codes "OBSERVER: file uploaded: " ++ (info ++ codes "\n")

-- What an observer of the main program has printed, by the calls made so far, the last first.
unfoldable pub printed : ℕ → List NetCall → Bytes
printed o [] = []
printed o (signalled p info ∷ calls) =
    if p == o then printed o calls ++ notify_signal info else printed o calls
printed o (_ ∷ calls) = printed o calls

-- Where the main thread is: before `start`, before `register_observer`, or in its endless loop.
pub data MainPoint : Type 0 where
  constructed started waiting : MainPoint

pub record Main (E F : Type 0) : Type 0 where
  pub system : System E F
  pub point : MainPoint

module _ {E F : Type 0} (net : Net E) where
  abbrev pub new_main : World E → F → Main E F
  new_main w f = record {
    system = system_of (new_default_server net (codes "127.0.0.1") w) f;
    point = constructed;
  }

module _ {E F : Type 0} where
  abbrev pub main_start : Main E F → Main E F
  main_start p = record p {
    system = record p.system { server = start p.system.server };
    point = started;
  }

  -- The observer is told from its address.
  abbrev pub main_register : ℕ → Main E F → Main E F
  main_register observer p = record p {
    system = record p.system { server = register observer file_put p.system.server };
    point = waiting;
  }

module _ {E F : Type 0} (net : Net E) (os : Os F) (observer : ℕ) where
  -- A step of the main thread, or of the threads it has started.
  pub data MainStep (p q : Main E F) : Type 0 where
    starts : p.point ≡ constructed → p.system.crashed ≡ false → q ≡ main_start p → MainStep p q
    registers :
        p.point ≡ started → p.system.crashed ≡ false → q ≡ main_register observer p → MainStep p q
    others :
        (s : System E F) → RunStep net os p.system s → q ≡ record p { system = s } → MainStep p q

  pub data MainReach (p : Main E F) : Main E F → Type 0 where
    here : MainReach p p
    next : {q r : Main E F} → MainReach p q → MainStep q r → MainReach p r
