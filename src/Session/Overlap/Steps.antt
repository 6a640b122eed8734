-- ===== src/Session/Overlap/Steps.antt =====
-- Every step of calls of STOR to one path keeps to a log of the writes.
use ftps_server.Base.{
  put_at, ℕ, ◌≡◌, refl, ap, ◌∙◌, true, false, List, [], ◌∷◌, ◌++◌, some, ◌==◌, arith, append-nil,
  append_assoc, Option-cases, sym, inl, inr, ◌≢◌,
}
use ftps_server.Text.{Bytes}
use ftps_server.FileSystem.Os.{Os}
use ftps_server.FileSystem.Lawful.{IsLawful}
use ftps_server.FileSystem.File.{or_nothing}
use ftps_server.Session.Overlap.{
  opening, pulling, closing, finished, Stor, pull_chunk, Stors, open_stor, StorStep, opens, pulls,
  writes, closes, StorReach, here, next,
}
use ftps_server.Session.Overlap.Logs.{
  taken, unwritten_at, unwritten, all_bytes, bytes_by, all_bytes-append, bytes_by-append_own,
  bytes_by-append_other, unwritten-append, unwritten-pull_chunk, pull_chunk-GoesOn, IsOn-ne,
  IsOn-Writes, put_at-All, Writes, IsStart,
}

module _ {F : Type 0} (os : Os F) (lawful : IsLawful os) (p : Bytes) (start : Stors F) where
  abbrev Holds : F → List (ℕ × Bytes) → Type 0
  Holds f log =
      lawful.content f p ≡ some (or_nothing (lawful.content start.files p) ++ all_bytes log)

  -- One call, its number first: its writes are, in order, the first bytes of those that it is to write.
  pub record IsCall (f : F) (log : List (ℕ × Bytes)) (j : ℕ) (c : Stor) : Type 0 where
    pub path : c.path ≡ p
    pub shut : c.point ≡ opening → c.is_open ≡ false
    pub silent : c.is_open ≡ false → bytes_by j log ≡ []
    pub there : c.is_open ≡ true → Holds f log
    pub own : Writes c → bytes_by j log ++ unwritten c ≡ unwritten (start.calls j)

  -- The file holds what it held and the writes of a log.
  pub record IsLogged (s : Stors F) (log : List (ℕ × Bytes)) : Type 0 where
    pub whole :
        or_nothing (lawful.content s.files p)
        ≡ or_nothing (lawful.content start.files p) ++ all_bytes log
    pub calls : (j : ℕ) → IsCall s.files log j (s.calls j)

  start-IsLogged : ((i : ℕ) → IsStart p (start.calls i)) → IsLogged start []
  start-IsLogged h = record {
    whole = simp append-nil;
    calls = λ i. record {
      path = (h i).2;
      shut = λ e. (h i).1;
      silent = λ o. refl;
      there = λ e. let bad = (h i).1 in cc;
      own = λ w. refl;
    };
  }

  -- A log may grow, and the file with it.
  abbrev Grows : F → F → List (ℕ × Bytes) → List (ℕ × Bytes) → ℕ → Type 0
  Grows f f' log log' i =
      (Holds f log → Holds f' log')
      × ((j : ℕ) → (i == j) ≡ false → bytes_by j log' ≡ bytes_by j log)

  others-IsCall :
      (f f' : F) (log log' : List (ℕ × Bytes)) (i j : ℕ) (c : Stor)
      → Grows f f' log log' i
      → (i == j) ≡ false
      → IsCall f log j c
      → IsCall f' log' j c
  others-IsCall f f' log log' i j c (g, b) e h = record {
    path = h.path;
    shut = h.shut;
    silent = λ o. b j e ∙ h.silent o;
    there = λ o. g (h.there o);
    own = λ w. rw (b j e) (h.own w);
  }

  -- The call with a number makes a step, and the others stay.
  step-calls :
      (s : Stors F) (f' : F) (log log' : List (ℕ × Bytes)) (i : ℕ) (c : Stor)
      → IsLogged s log
      → Grows s.files f' log log' i
      → IsCall f' log' i c
      → (j : ℕ) → IsCall f' log' j (put_at s.calls i c j)
  step-calls s f' log log' i c l g h =
      put_at-All (IsCall f' log') s.calls i c h
        (λ j e. others-IsCall s.files f' log log' i j (s.calls j) g e (l.calls j))

  same_log : (f : F) (log : List (ℕ × Bytes)) (i : ℕ) → Grows f f log log i
  same_log f log i = (λ h. h, λ j e. refl)

  pull-IsCall :
      (s : Stors F) (log : List (ℕ × Bytes)) (i : ℕ)
      → IsLogged s log
      → (s.calls i).point ≡ pulling
      → IsCall s.files log i (pull_chunk (s.calls i).incoming (s.calls i))
  pull-IsCall s log i l e =
      let c = s.calls i in
      let old = l.calls i in
      let (path, stream, on_) = pull_chunk-GoesOn c.incoming c e in
      record {
        path = path ∙ old.path;
        shut = λ back. absurd (IsOn-ne _ on_ back);
        silent = λ o. old.silent (sym stream ∙ o);
        there = λ o. old.there (sym stream ∙ o);
        own = λ w.
            let o : c.is_open ≡ true = sym stream ∙ IsOn-Writes _ _ on_ w in
            let before : Writes c = rw e o in
            let more : unwritten c ≡ c.pending ++ taken c.left c.incoming = rw e refl in
            rw (unwritten-pull_chunk c.incoming c e o, ← more) (old.own before);
      }

  open-IsLogged :
      (s : Stors F) (log : List (ℕ × Bytes)) (i : ℕ)
      → IsLogged s log
      → (s.calls i).point ≡ opening
      → IsLogged
          (record {
            calls = put_at s.calls i (open_stor os (s.calls i) s.files).0;
            files = (open_stor os (s.calls i) s.files).1;
          })
          log
  open-IsLogged s log i l e =
      let c = s.calls i in
      let old = l.calls i in
      elim (Option-cases (os.open_append s.files c.path c.binary)) [
        | inl n ↦ rw n (record {
          whole = l.whole;
          calls =
              step-calls s s.files log log i (record c { is_open = false; point = pulling }) l
                (same_log s.files log i)
                (record {
                  path = old.path;
                  shut = λ b. cc;
                  silent = λ o. old.silent (old.shut e);
                  there = λ o. cc;
                  own = λ w. cc;
                });
        })
        | inr (f, o) ↦
            let at_p : os.open_append s.files p c.binary ≡ some f = rw (← old.path) o in
            let content = lawful.content-open_append s.files p c.binary at_p in
            let held : Holds f log = content ∙ ap some l.whole in
            rw o (record {
              whole = rw content l.whole;
              calls =
                  step-calls s f log log i (record c { is_open = true; point = pulling }) l
                    (λ h. held, λ j n. refl)
                    (record {
                      path = old.path;
                      shut = λ b. cc;
                      silent = λ t. cc;
                      there = λ t. held;
                      own = λ w.
                          let before : Writes c = rw e tt in
                          let same : unwritten c ≡ c.pending ++ taken c.left c.incoming =
                            rw e refl in
                          rw (← same) (old.own before);
                    });
            })
      ]

  write-IsLogged :
      (s : Stors F) (log : List (ℕ × Bytes)) (i : ℕ) (q a b : Bytes)
      → IsLogged s log
      → (s.calls i).is_open ≡ true
      → (s.calls i).point ≢ finished
      → (s.calls i).pending ≡ a ++ b
      → q ≡ p
      → IsLogged
          (record {
            calls = put_at s.calls i (record (s.calls i) { pending = b });
            files = os.append s.files q a;
          })
          (log ++ (i, a) ∷ [])
  write-IsLogged s log i q a b l o n e at_p =
      let c = s.calls i in
      let old = l.calls i in
      let base = or_nothing (lawful.content start.files p) in
      let grown : (Holds s.files log → Holds (os.append s.files p a) (log ++ (i, a) ∷ [])) = λ h.
        lawful.content-append s.files p (base ++ all_bytes log) a h
        ∙ ap some (append_assoc base (all_bytes log) a ∙ rw (all_bytes-append log i a) refl) in
      let held = grown (old.there o) in
      rw at_p (record {
        whole = rw held refl;
        calls =
            step-calls s (os.append s.files p a) log (log ++ (i, a) ∷ []) i
              (record c { pending = b }) l (grown, λ j m. bytes_by-append_other j log i a m)
              (record {
                path = old.path;
                shut = old.shut;
                silent = λ t. cc;
                there = λ t. held;
                own = λ w. rw (bytes_by-append_own i log i a (ground arith)) (
                    append_assoc (bytes_by i log) a
                      (unwritten_at c.point (record c { pending = b }))
                    ∙ ap (λ (t : Bytes). bytes_by i log ++ t)
                        (sym (unwritten-append c.point c a b n e))
                    ∙ old.own w);
              });
      })

  close-IsCall :
      (s : Stors F) (log : List (ℕ × Bytes)) (i : ℕ)
      → IsLogged s log
      → (s.calls i).point ≡ closing
      → (s.calls i).pending ≡ []
      → IsCall s.files log i (record (s.calls i) { point = finished })
  close-IsCall s log i l e n =
      let c = s.calls i in
      let old = l.calls i in
      record {
        path = old.path;
        shut = λ b. cc;
        silent = old.silent;
        there = old.there;
        own = λ w.
            let before : Writes c = rw e w in
            let none_left : unwritten c ≡ [] = rw e n in rw (← none_left) (old.own before);
      }

  -- Every step keeps to a log.
  StorStep-IsLogged :
      {s t : Stors F} (log : List (ℕ × Bytes))
      → StorStep os s t
      → IsLogged s log
      → (log' : List (ℕ × Bytes)) × IsLogged t log'
  StorStep-IsLogged {s} log (opens i e t) l = (log, rw t (open-IsLogged s log i l e))
  StorStep-IsLogged {s} log (pulls i e t) l = (
    log,
    rw t (record {
      whole = l.whole;
      calls = step-calls s s.files log log i _ l (same_log s.files log i) (pull-IsCall s log i l e);
    }),
  )
  StorStep-IsLogged {s} log (writes i a b o n e t) l = (
    log ++ (i, a) ∷ [],
    rw t (write-IsLogged s log i (s.calls i).path a b l o n e (l.calls i).path),
  )
  StorStep-IsLogged {s} log (closes i e n t) l = (
    log,
    rw t (record {
      whole = l.whole;
      calls =
          step-calls s s.files log log i _ l (same_log s.files log i) (close-IsCall s log i l e n);
    }),
  )

  pub StorReach-IsLogged :
      {t : Stors F}
      → ((i : ℕ) → IsStart p (start.calls i))
      → StorReach os start t
      → (log : List (ℕ × Bytes)) × IsLogged t log
  StorReach-IsLogged h here = ([], start-IsLogged h)
  StorReach-IsLogged h (next r st) =
      let (log, l) = StorReach-IsLogged h r in StorStep-IsLogged log st l
