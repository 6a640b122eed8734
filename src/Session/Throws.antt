-- ===== src/Session/Throws.antt =====
-- Which commands throw.
use ftps_server.Base.{
  ℕ, zero, suc, ◌<◌, ◌≡◌, ◌↔◌, ◌⊎◌, inl, inr, refl, ap, sym, ◌∙◌, Bool, true, false, List, [], ◌∷◌,
  some, arith, length, get_elem?, Result, ok, err, Fault, out_of_range, ◌>>=◌,
}
use ftps_server.Text.{Bytes, codes}
use ftps_server.Number.{stoi}
use ftps_server.Command.{
  CommandType, Command, parse, get_argument, user, pass, syst, pwd, cwd, port, list, stor, type,
  quit, feat, auth, pbsz, prot, pasv, allo, dele, rnfr, rnto, unknown, incomplete,
}
use ftps_server.Command.Arity.{arity, parse-arity}
use ftps_server.FileSystem.Os.{Os}
use ftps_server.Net.World.{Net}
use ftps_server.Session.State.{Machine}
use ftps_server.Session.Login.{command_user, command_pass, command_quit}
use ftps_server.Session.Settings.{
  command_syst, command_pwd, command_type, command_feat, command_pbsz, command_prot, command_allo,
}
use ftps_server.Session.Folder.{
  requested_folder, substr_two, command_cwd, command_dele, command_rnfr, command_rnto,
}
use ftps_server.Session.Channel.{command_port, command_auth, command_pasv}
use ftps_server.Session.Waits.{NoException-err, command_auth-NoException, command_pasv-NoException}
use ftps_server.Session.Transfer.{command_list, command_stor}
use ftps_server.Session.Names.{requested_folder-err}
use ftps_server.Session.Dispatch.{dispatch}
use ftps_server.System.{is_exception}

-- What a command throws: CWD for the argument `~`, and the commands that read a number from a text
-- what `std::stoi` throws.
abbrev pub Throws : CommandType → Command → Fault → Type 0
Throws cwd c f = (get_argument c 0 ≡ ok (codes "~")) × (f ≡ out_of_range)
Throws pbsz c f = (get_argument c 0 >>= stoi) ≡ err f
Throws allo c f = (get_argument c 0 >>= stoi) ≡ err f
Throws port c f = (get_argument c 1 >>= stoi) ≡ err f
Throws _ c f = ⊥

-- A result that is no fault.
abbrev Returns {ℓ} : {A : Type ℓ} → Result A → Type 0
Returns (ok a) = Unit
Returns (err f) = ⊥

Returns-err {ℓ} : {A : Type ℓ} (r : Result A) (f : Fault) → Returns r → (r ≡ err f) ↔ ⊥
Returns-err (ok a) f h = (λ e. cc, λ b. absurd b)
Returns-err (err g) f h = absurd h

ok-err {ℓ κ} :
    {A : Type ℓ} {B : Type κ} (r : Result A) (g : A → B) (f : Fault)
    → ((r >>= λ a. ok (g a)) ≡ err f) ↔ (r ≡ err f)
ok-err (ok a) g f = (λ e. cc, λ e. cc)
ok-err (err h) g f = (λ e. cc, λ e. cc)

get_elem?-lt {ℓ} :
    {A : Type ℓ} (l : List A) (i : ℕ) → i < length l → (a : A) × (get_elem? l i ≡ some a)
get_elem?-lt [] i h = absurd (omega arith)
get_elem?-lt (x ∷ l) zero h = (x, refl)
get_elem?-lt (x ∷ l) (suc i) h = get_elem?-lt l i (omega arith)

get_argument-lt :
    (c : Command) (i : ℕ) → i < length c.arguments → (a : Bytes) × (get_argument c i ≡ ok a)
unfolding get_argument
get_argument-lt c i h = let (a, e) = get_elem?-lt c.arguments i h in (a, rw (e, get_argument) refl)

module _ {E F : Type 0} (os : Os F) (c : Command) (m : Machine E F) (f : Fault) where
  requested_folder-fault :
      (folder : Bytes) → requested_folder os m folder ≡ err f → f ≡ out_of_range
  unfolding requested_folder substr_two
  requested_folder-fault folder e = ground arith

  command_cwd-requested :
      (folder : Bytes)
      → get_argument c 0 ≡ ok folder
      → (command_cwd os c m ≡ err f) ↔ (requested_folder os m folder ≡ err f)
  unfolding command_cwd
  command_cwd-requested folder a = rw a (ok-err (requested_folder os m folder) _ f)

  command_cwd-err :
      (folder : Bytes)
      → get_argument c 0 ≡ ok folder
      → (command_cwd os c m ≡ err f) ↔ Throws cwd c f
  command_cwd-err folder a =
      let (there, back) = command_cwd-requested folder a in
      let (home, thrown) = requested_folder-err os m folder in
      (
        λ e.
            let r = there e in
            let o = requested_folder-fault folder r in
            let is_home : folder ≡ codes "~" = home (r ∙ ap err o) in (a ∙ ap ok is_home, o),
        λ (g, o). let is_home : folder ≡ codes "~" = cc in back (thrown is_home ∙ ap err (sym o)),
      )

module _ {E F : Type 0} (net : Net E) (c : Command) (m : Machine E F) (f : Fault) where
  command_port-err :
      (address text : Bytes)
      → get_argument c 0 ≡ ok address
      → get_argument c 1 ≡ ok text
      → (command_port net c m ≡ err f) ↔ Throws port c f
  unfolding command_port
  command_port-err address text a b = rw (a, b) (ok-err (stoi text) _ f)

module _ {E F : Type 0} (c : Command) (m : Machine E F) (f : Fault) (a : Bytes) where
  command_pbsz-err : get_argument c 0 ≡ ok a → (command_pbsz c m ≡ err f) ↔ Throws pbsz c f
  unfolding command_pbsz
  command_pbsz-err e = rw e (ok-err (stoi a) _ f)

  command_allo-err : get_argument c 0 ≡ ok a → (command_allo c m ≡ err f) ↔ Throws allo c f
  unfolding command_allo
  command_allo-err e = rw e (ok-err (stoi a) _ f)

module _ {E F : Type 0} (net : Net E) (os : Os F) where
  -- The commands that throw nothing.
  abbrev is_safe : CommandType → Bool
  is_safe cwd = false
  is_safe port = false
  is_safe pbsz = false
  is_safe allo = false
  is_safe auth = false
  is_safe pasv = false
  is_safe _ = true

  one_argument-Returns :
      (t : CommandType) (c : Command) (m : Machine E F) (a : Bytes)
      → arity t ≡ 1
      → is_safe t ≡ true
      → get_argument c 0 ≡ ok a
      → Returns (dispatch net os t c m)
  unfolding dispatch command_user command_pass command_type command_prot command_dele command_rnfr
      command_rnto command_stor
  one_argument-Returns user c m a n s e = rw e tt
  one_argument-Returns pass c m a n s e = rw e tt
  one_argument-Returns type c m a n s e = rw e tt
  one_argument-Returns prot c m a n s e = rw e tt
  one_argument-Returns dele c m a n s e = rw e tt
  one_argument-Returns rnfr c m a n s e = rw e tt
  one_argument-Returns rnto c m a n s e = rw e tt
  one_argument-Returns stor c m a n s e = rw e tt
  one_argument-Returns _ c m a n s e = cc

  no_argument-Returns :
      (t : CommandType) (c : Command) (m : Machine E F)
      → arity t ≡ 0
      → is_safe t ≡ true
      → Returns (dispatch net os t c m)
  unfolding dispatch command_syst command_pwd command_feat command_quit command_list
  no_argument-Returns syst c m n s = tt
  no_argument-Returns pwd c m n s = tt
  no_argument-Returns feat c m n s = tt
  no_argument-Returns quit c m n s = tt
  no_argument-Returns list c m n s = tt
  no_argument-Returns incomplete c m n s = tt
  no_argument-Returns unknown c m n s = tt
  no_argument-Returns _ c m n s = cc

  arity-cases : (t : CommandType) → is_safe t ≡ true → (arity t ≡ 0) ⊎ (arity t ≡ 1)
  arity-cases t s = grind arith

  safe-Returns :
      (t : CommandType) (c : Command) (m : Machine E F)
      → is_safe t ≡ true
      → length c.arguments ≡ arity t
      → Returns (dispatch net os t c m)
  safe-Returns t c m s n = elim (arity-cases t s) [
    | inl none_ ↦ no_argument-Returns t c m none_ s
    | inr one ↦
        let (a, e) = get_argument-lt c 0 (omega (arith, n, one)) in
        one_argument-Returns t c m a one s e
  ]

  -- A handler, given as many arguments as it reads.
  handler-err :
      (t : CommandType) (c : Command) (m : Machine E F) (f : Fault)
      → is_exception f ≡ true
      → length c.arguments ≡ arity t
      → (dispatch net os t c m ≡ err f) ↔ Throws t c f
  unfolding dispatch
  handler-err cwd c m f w n =
      let (a, e) = get_argument-lt c 0 (omega (arith, n)) in command_cwd-err os c m f a e
  handler-err pbsz c m f w n =
      let (a, e) = get_argument-lt c 0 (omega (arith, n)) in command_pbsz-err c m f a e
  handler-err allo c m f w n =
      let (a, e) = get_argument-lt c 0 (omega (arith, n)) in command_allo-err c m f a e
  handler-err port c m f w n =
      let (a, d) = get_argument-lt c 0 (omega (arith, n)) in
      let (b, e) = get_argument-lt c 1 (omega (arith, n)) in command_port-err net c m f a b d e
  handler-err auth c m f w n =
      let (a, e) = get_argument-lt c 0 (omega (arith, n)) in
      NoException-err (command_auth net c m) f (command_auth-NoException net c m a e) w
  handler-err pasv c m f w n =
      NoException-err (command_pasv net c m) f (command_pasv-NoException net c m) w
  handler-err t c m f w n = Returns-err (dispatch net os t c m) f (safe-Returns t c m refl n)

  -- A standard exception leaves the handler of a parsed command exactly where the command is CWD with
  -- the argument `~`, or where `std::stoi` throws it for the number of PBSZ, ALLO or PORT. Of a wait
  -- for the client, and of a call of GnuTLS on a channel whose TLS session is closed, this says
  -- nothing.
  pub dispatch-err :
      (line : Bytes) (c : Command) (m : Machine E F) (f : Fault)
      → parse line ≡ ok c
      → is_exception f ≡ true
      → (dispatch net os c.command c m ≡ err f) ↔ Throws c.command c f
  dispatch-err line c m f e x = handler-err c.command c m f x (parse-arity line e)
