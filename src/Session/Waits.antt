-- ===== src/Session/Waits.antt =====
-- AUTH and PASV, which wait for the client: they throw no exception.
use ftps_server.Base.{
  ◌≡◌, refl, ◌↔◌, Bool, true, false, not, ◌&&◌, List, [], ◌∷◌, Result, ok, err, Fault, ◌>>=◌, ℤ,
  pos, ltb_ℤ, Bool-cases, inl, inr,
}
use ftps_server.Text.{Bytes, codes, equal}
use ftps_server.Status.{is_success}
use ftps_server.Command.{Command, get_argument}
use ftps_server.Net.World.{Net, World}
use ftps_server.Net.Tls.{TlsSession, handshake_loop, handshake, bind_session}
use ftps_server.Net.Transport.{Transport, set_tls}
use ftps_server.Session.State.{Machine}
use ftps_server.Session.Channel.{
  Allocation, command_auth, secure_data, is_private, enter_passive, answer_passive, command_pasv,
  search_port, with_allocation,
}
use ftps_server.System.{is_exception}

-- A result that is no exception.
abbrev pub NoException {ℓ} : {A : Type ℓ} → Result A → Type 0
NoException (ok a) = Unit
NoException (err f) = is_exception f ≡ false

pub NoException-err {ℓ} :
    {A : Type ℓ} (r : Result A) (f : Fault)
    → NoException r
    → is_exception f ≡ true
    → (r ≡ err f) ↔ ⊥
NoException-err (ok a) f h x = (λ e. cc, λ b. absurd b)
NoException-err (err g) f h x =
    (λ e. let same : g ≡ f = cc in absurd (let both : true ≡ false = cc in cc), λ b. absurd b)

>>=-NoException {ℓ κ} :
    {A : Type ℓ} {B : Type κ} (r : Result A) (g : A → B)
    → NoException r
    → NoException (r >>= λ a. ok (g a))
>>=-NoException (ok a) g h = tt
>>=-NoException (err f) g h = h

handshake_loop-NoException :
    (fatal : ℤ → Bool) (rs : List ℤ) → NoException (handshake_loop fatal rs)
unfolding handshake_loop
handshake_loop-NoException fatal [] = refl
handshake_loop-NoException fatal (r ∷ rs) = elim (Bool-cases (ltb_ℤ r (pos 0) && not (fatal r))) [
  | inl again ↦ rw again (handshake_loop-NoException fatal rs)
  | inr done ↦ rw done tt
]

module _ {E : Type 0} (net : Net E) where
  handshake-NoException : (s : TlsSession) (w : World E) → NoException (handshake net s w)
  unfolding handshake
  handshake-NoException s w =
      >>=-NoException (handshake_loop net.is_fatal (net.handshakes w.env s.session).0) _
        (handshake_loop-NoException net.is_fatal (net.handshakes w.env s.session).0)

  set_tls-NoException : (t : Transport) (w : World E) → NoException (set_tls net t w)
  unfolding set_tls
  set_tls-NoException t w =
      let (r, s, w') = bind_session net t.session w in
      elim (Bool-cases (is_success r)) [
        | inl e ↦ rw e (>>=-NoException (handshake net s w') _ (handshake-NoException s w'))
        | inr e ↦ rw e tt
      ]

module _ {E F : Type 0} (net : Net E) where
  pub command_auth-NoException :
      (c : Command) (m : Machine E F) (a : Bytes)
      → get_argument c 0 ≡ ok a
      → NoException (command_auth net c m)
  unfolding command_auth
  command_auth-NoException c m a e = elim (Bool-cases (equal a (codes "TLS"))) [
    | inl tls ↦
        rw (e, command_auth, NoException)
          (rw tls (
            >>=-NoException (set_tls net m.control_channel _) _
              (set_tls-NoException net m.control_channel _)))
    | inr other ↦ rw (e, command_auth, NoException) (rw other tt)
  ]

  secure_data-NoException : (m : Machine E F) → NoException (secure_data net m)
  unfolding secure_data
  secure_data-NoException m =
      elim (Bool-cases (m.control_channel.secure && is_private m.protection_level)) [
        | inl e ↦
            rw (e, secure_data)
              (>>=-NoException (set_tls net m.data_channel m.world) _
                (set_tls-NoException net m.data_channel m.world))
        | inr e ↦ rw (e, secure_data) tt
      ]

  answer_passive-NoException :
      (b : Bool) (a : Allocation E) (m : Machine E F) → NoException (answer_passive net b a m)
  unfolding answer_passive enter_passive
  answer_passive-NoException false a m = tt
  answer_passive-NoException true a m =
      >>=-NoException (secure_data net _) _ (secure_data-NoException _)

  pub command_pasv-NoException :
      (c : Command) (m : Machine E F) → NoException (command_pasv net c m)
  unfolding command_pasv
  command_pasv-NoException c m =
      let a = search_port net m in answer_passive-NoException a.bound a (with_allocation net a m)
