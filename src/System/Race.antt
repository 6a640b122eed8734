-- ===== src/System/Race.antt =====
-- src/ftp_session.cpp, `DATA_PORT_ALLOCATION++` in `command_pasv`: the counter is one for all sessions
-- and has no lock, so that the read and the write of an increment are two steps.
use ftps_server.Base.{
  ℕ, zero, suc, ◌+◌, ◌≡◌, ◌≢◌, refl, ◌∙◌, false, Option, none, some, ◌==◌, arith, put_at,
}

-- `loaded` is the value that a session has read and not yet written back, and `port` the last one that
-- it took.
pub record Counter : Type 0 where
  pub data_port : ℕ
  pub loaded : ℕ → Option ℕ
  pub port : ℕ → Option ℕ

abbrev pub load : ℕ → Counter → Counter
load i s = record s { loaded = put_at s.loaded i (some s.data_port) }

abbrev pub store : ℕ → ℕ → Counter → Counter
store i v s = record {
  data_port = v + 1;
  loaded = put_at s.loaded i none;
  port = put_at s.port i (some v);
}

-- A step of the session with a number.
pub data CounterStep (s s' : Counter) : Type 0 where
  loads : (i : ℕ) → s.loaded i ≡ none → s' ≡ load i s → CounterStep s s'
  stores : (i v : ℕ) → s.loaded i ≡ some v → s' ≡ store i v s → CounterStep s s'

pub data CounterReach (s : Counter) : Counter → Type 0 where
  here : CounterReach s s
  next : {t u : Counter} → CounterReach s t → CounterStep t u → CounterReach s u

CounterReach-trans : {s t u : Counter} → CounterReach s t → CounterReach t u → CounterReach s u
CounterReach-trans r here = r
CounterReach-trans r (next q st) = next (CounterReach-trans r q) st

-- An increment with nothing between its steps.
increment-CounterReach :
    (s u : Counter) (j : ℕ)
    → CounterReach s u
    → u.loaded j ≡ none
    → CounterReach s (store j u.data_port (load j u))
increment-CounterReach s u j r e =
    next (next r (loads j e refl)) (stores j u.data_port (ground arith) refl)

-- What a session has behind increments of its own, one more than a number: the port that it took last,
-- and what the others have read, which stays.
record Took (s u : Counter) (j n : ℕ) : Type 0 where
  reach : CounterReach s u
  data_port : u.data_port ≡ s.data_port + n + 1
  port : u.port j ≡ some (s.data_port + n)
  ready : u.loaded j ≡ none
  others : (k : ℕ) → (j == k) ≡ false → u.loaded k ≡ s.loaded k

takes : (s : Counter) (j n : ℕ) → s.loaded j ≡ none → (u : Counter) × Took s u j n
takes s j zero e = (
  store j s.data_port (load j s),
  record {
    reach = increment-CounterReach s s j here e;
    data_port = omega arith;
    port = ground arith;
    ready = ground arith;
    others = λ k m. ground arith;
  },
)
takes s j (suc n) e =
    let (u, t) = takes s j n e in
    (
      store j u.data_port (load j u),
      record {
        reach = increment-CounterReach s u j t.reach t.ready;
        data_port = omega (arith, t.data_port);
        port = ground (arith, t.data_port);
        ready = ground arith;
        others = λ k m. ground (arith, t.others k m);
      },
    )

-- Of any two sessions, neither of them inside an increment, one can take any number of ports while the
-- other is inside of one: when that is over, the other session has taken the first of these ports too,
-- and the counter is back behind that port, so that all the others will be taken again.
pub increments-lost :
    (s : Counter) (i j n : ℕ)
    → i ≢ j
    → s.loaded i ≡ none
    → s.loaded j ≡ none
    → (u t : Counter) × CounterReach s u
      × (u.port j ≡ some (s.data_port + n))
      × (u.data_port ≡ s.data_port + n + 1)
      × CounterReach u t
      × (t.port i ≡ some s.data_port)
      × (t.data_port ≡ s.data_port + 1)
increments-lost s i j n ne a b =
    let start = load i s in
    let (u, took) = takes start j n (ground arith) in
    let held : u.loaded i ≡ some s.data_port = took.others i (ground arith) ∙ ground arith in
    (
      u,
      store i s.data_port u,
      CounterReach-trans (next here (loads i a refl)) took.reach,
      took.port,
      took.data_port,
      next here (stores i s.data_port held refl),
      ground arith,
      refl,
    )
