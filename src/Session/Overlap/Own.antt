-- ===== src/Session/Overlap/Own.antt =====
-- Steps of one call of STOR, with those of no other in between.
use ftps_server.Base.{
  ℕ, ◌≡◌, refl, sym, ap, ◌∙◌, Bool, true, List, [], Option, ℤ, arith, append-nil, put_at,
}
use ftps_server.Text.{Bytes}
use ftps_server.FileSystem.Os.{Os}
use ftps_server.Session.Overlap.{
  StorPoint, pulling, closing, finished, Stor, pull_chunk, Stors, pulls, writes, closes, StorReach,
  here, next,
}

pub put_at-same {ℓ} : {A : Type ℓ} (f : ℕ → A) (i : ℕ) (a : A) → put_at f i a i ≡ a
put_at-same f i a = ground arith

module _ {F : Type 0} (os : Os F) (i : ℕ) where
  pub StorReach-trans : {s t u : Stors F} → StorReach os s t → StorReach os t u → StorReach os s u
  StorReach-trans r here = r
  StorReach-trans r (next q st) = next (StorReach-trans r q) st

  -- The call with the number gets to its end, with these files and so much left to pull.
  pub record Ends (s : Stors F) (end : F × List Bytes) : Type 0 where
    pub behind : Stors F
    pub reach : StorReach os s behind
    pub done : (behind.calls i).point ≡ finished
    pub files : behind.files ≡ end.0
    pub incoming : (behind.calls i).incoming ≡ end.1

  pub Ends-first :
      {s t : Stors F} (end : F × List Bytes) → StorReach os s t → Ends t end → Ends s end
  Ends-first end r e = record {
    behind = e.behind;
    reach = StorReach-trans r e.reach;
    done = e.done;
    files = e.files;
    incoming = e.incoming;
  }

  -- A call that is in its loop, or behind it.
  abbrev pub call_at : StorPoint → Bytes → Bool → Bool → Option ℤ → List Bytes → Bytes → Stor
  call_at point path binary is_open left incoming pending = record {
    path = path;
    binary = binary;
    point = point;
    is_open = is_open;
    left = left;
    incoming = incoming;
    pending = pending;
  }

  -- A run to a state in which the call is as given, and the files are.
  abbrev pub Comes : Stors F → Stor → F → Type 0
  Comes s c f = (t : Stors F) × StorReach os s t × (t.calls i ≡ c) × (t.files ≡ f)

  pub close-Ends :
      (s : Stors F) (c : Stor)
      → s.calls i ≡ c
      → c.point ≡ closing
      → c.pending ≡ []
      → Ends s (s.files, c.incoming)
  close-Ends s c e p n = record {
    behind = record s { calls = put_at s.calls i (record (s.calls i) { point = finished }) };
    reach = next here (closes i (rw e p) (rw e n) refl);
    done =
        ap (λ (x : Stor). x.point)
          (put_at-same s.calls i (record (s.calls i) { point = finished }));
    files = refl;
    incoming =
        ap (λ (x : Stor). x.incoming)
          (put_at-same s.calls i (record (s.calls i) { point = finished }))
        ∙ ap (λ (x : Stor). x.incoming) e;
  }

  pub pull-Comes :
      (s : Stors F) (c : Stor)
      → s.calls i ≡ c
      → c.point ≡ pulling
      → Comes s (pull_chunk c.incoming c) s.files
  pull-Comes s c e p = (
    record s { calls = put_at s.calls i (pull_chunk (s.calls i).incoming (s.calls i)) },
    next here (pulls i (rw e p) refl),
    put_at-same s.calls i _ ∙ ap (λ (x : Stor). pull_chunk x.incoming x) e,
    refl,
  )

  pub write-Comes :
      (s : Stors F) (c : Stor)
      → s.calls i ≡ c
      → c.point ≡ pulling
      → c.is_open ≡ true
      → Comes s (record c { pending = [] }) (os.append s.files c.path c.pending)
  write-Comes s c e p o = (
    record {
      calls = put_at s.calls i (record (s.calls i) { pending = [] });
      files = os.append s.files (s.calls i).path c.pending;
    },
    next here (
        writes i c.pending [] (rw e o)
          (λ f. let bad : pulling ≡ finished = sym p ∙ sym (ap (λ (x : Stor). x.point) e) ∙ f in cc)
          (ap (λ (x : Stor). x.pending) e ∙ sym (append-nil c.pending)) refl),
    put_at-same s.calls i _ ∙ ap (λ (x : Stor). record x { pending = [] }) e,
    ap (λ (x : Stor). os.append s.files x.path c.pending) e,
  )
