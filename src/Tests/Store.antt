-- ===== src/Tests/Store.antt =====
-- A file system of named contents.
use ftps_server.Base.{
  Bool-cases, inl, inr, ◌≡◌, refl, true, false, List, [], ◌∷◌, ◌++◌, Option, none, some,
  if◌then◌else◌, arith,
}
use ftps_server.Text.{Bytes, equal, is_empty, equal_refl}
use ftps_server.FileSystem.Os.{Os, regular, RefusesEmpty}
use ftps_server.FileSystem.Lawful.{IsLawful}
use ftps_server.FileSystem.File.{or_nothing}

abbrev pub Store : Type 0
Store = List (Bytes × Bytes)

-- The content of a path, and the same store with another one.
unfoldable pub held : Store → Bytes → Option Bytes
unfolding equal
held [] p = none
held ((q, c) ∷ s) p = if equal q p then some c else held s p

abbrev pub if_held : Option Bytes → Bytes → Option Bytes
if_held none p = none
if_held (some c) p = some p

abbrev pub renamed : Store → Bytes → Option Bytes → Option Store
renamed s new none = none
renamed s new (some c) = some ((new, c) ∷ s)

abbrev pub found : Store → Bytes → Option Bytes
found s p = if is_empty p then none else held s p

-- The store without a path.
unfoldable pub without : Store → Bytes → Store
unfolding equal
without [] p = []
without ((q, c) ∷ s) p = let rest = without s p in if equal q p then rest else (q, c) ∷ rest

abbrev pub removed : Store → Bytes → Option Bytes → Option Store
removed s p none = none
removed s p (some c) = some (without s p)

-- The empty path has no file; a renamed file stays under its old path too.
abbrev pub store_os : Os Store
store_os = record {
  realpath = λ s p. if_held (found s p) p;
  lstat = λ s p. elim (found s p) [ none ↦ none | some c ↦ some regular ];
  readdir = λ s p. none;
  rename = λ s old new. if is_empty new then none else renamed s new (found s old);
  remove = λ s p. removed s p (found s p);
  read = λ s p. found s p;
  write = λ s p c. if is_empty p then none else some ((p, c) ∷ s);
  open_append = λ s p binary. if is_empty p then none else some ((p, or_nothing (found s p)) ∷ s);
  append = λ s p chunk. (p, or_nothing (found s p) ++ chunk) ∷ s;
}

pub found-put : (s : Store) (p c : Bytes) → is_empty p ≡ false → found ((p, c) ∷ s) p ≡ some c
unfolding held
found-put s p c e = rw e (rw (equal_refl p) refl)

pub found-not_empty : (s : Store) (p : Bytes) {c : Bytes} → found s p ≡ some c → is_empty p ≡ false
found-not_empty s [] e = cc
found-not_empty s (x ∷ p) e = refl

pub if_held-some : (o : Option Bytes) (p : Bytes) {r : Bytes} → if_held o p ≡ some r → r ≡ p
if_held-some none p e = cc
if_held-some (some c) p e = cc

pub renamed-found :
    (s : Store) (new : Bytes) (o : Option Bytes) {s' : Store}
    → is_empty new ≡ false
    → renamed s new o ≡ some s'
    → found s' new ≡ o
renamed-found s new none e h = cc
renamed-found s new (some c) {s'} e h =
    let same : (new, c) ∷ s ≡ s' = cc in rw (← same) (found-put s new c e)

pub store_os-open :
    (s : Store) (p : Bytes) {s' : Store}
    → store_os.open_append s p true ≡ some s'
    → found s' p ≡ some (or_nothing (found s p))
store_os-open s [] e = cc
store_os-open s (x ∷ p) {s'} e =
    let same : (x ∷ p, or_nothing (found s (x ∷ p))) ∷ s ≡ s' = cc in
    rw (← same) (found-put s (x ∷ p) _ refl)

pub store_os-rename :
    (s : Store) (old new : Bytes) {s' : Store}
    → store_os.rename s old new ≡ some s'
    → found s' new ≡ found s old
store_os-rename s old [] e = cc
store_os-rename s old (x ∷ new) e = renamed-found s (x ∷ new) (found s old) refl e

held-without : (s : Store) (p : Bytes) → held (without s p) p ≡ none
unfolding held without
held-without [] p = refl
held-without ((q, c) ∷ s) p = elim (Bool-cases (equal q p)) [
  | inl e ↦ rw e (held-without s p)
  | inr e ↦ rw e (rw e (held-without s p))
]

removed-found :
    (s : Store) (p : Bytes) (o : Option Bytes) {s' : Store}
    → removed s p o ≡ some s'
    → found s' p ≡ none
removed-found s [] o e = refl
removed-found s (x ∷ p) none e = cc
removed-found s (x ∷ p) (some c) {s'} e =
    let same : without s (x ∷ p) ≡ s' = cc in rw (← same) (held-without s (x ∷ p))

pub store_os-remove :
    (s : Store) (q p : Bytes) {s' : Store}
    → store_os.realpath s q ≡ some p
    → store_os.remove s p ≡ some s'
    → found s' q ≡ none
store_os-remove s q p e h =
    let same = if_held-some (found s q) q e in rw (← same) (removed-found s p (found s p) h)

abbrev pub store_os-IsLawful : IsLawful store_os
store_os-IsLawful = record {
  content = found;
  content-open_append = λ s p binary e. store_os-open s p e;
  content-append = λ s p old chunk e. rw e (found-put s p (old ++ chunk) (found-not_empty s p e));
  content-rename = λ s old new e. store_os-rename s old new e;
  content-remove = λ s q p e h. store_os-remove s q p e h;
  content-realpath = λ s p e. rw (if_held-some (found s p) p e) refl;
  realpath_twice = λ s p e. let same = if_held-some (found s p) p e in rw same (rw same at e);
}

pub store_os-RefusesEmpty : RefusesEmpty store_os
store_os-RefusesEmpty = record {
  lstat_empty = λ s. refl;
  realpath_empty = λ s. refl;
  rename_empty = λ s new. ground arith;
  remove_empty = λ s. refl;
  write_empty = λ s content. refl;
}
