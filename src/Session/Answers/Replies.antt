-- ===== src/Session/Answers/Replies.antt =====
-- How often a handler writes to the channels.
use ftps_server.Base.{ℕ, ◌+◌, ◌≤◌, ◌≡◌, Result, ok, err, ◌>>=◌}
use ftps_server.Text.{Bytes}
use ftps_server.Net.Pushed.{pushed, pushed-push}
use ftps_server.Session.State.{Machine, reply}

-- The channels were written to so often, at the fewest and at the most.
abbrev pub Answered : {E F : Type 0} → ℕ → ℕ → Machine E F → Result (Machine E F) → Type 0
Answered few many m (ok m') =
    (pushed m.world + few ≤ pushed m'.world) × (pushed m'.world ≤ pushed m.world + many)
Answered few many m (err f) = Unit

module _ {E F : Type 0} where
  pub >>=-Answered :
      {A : Type 0} (few many : ℕ) (m : Machine E F) (r : Result A) (f : A → Result (Machine E F))
      → ((a : A) → Answered few many m (f a))
      → Answered few many m (r >>= f)
  >>=-Answered few many m (ok a) f h = h a
  >>=-Answered few many m (err e) f h = tt

  pub pushed-reply :
      (message : Bytes) (m : Machine E F) → pushed (reply message m).world ≡ pushed m.world + 1
  pushed-reply message m = pushed-push m.control_channel message m.world
