-- ===== src/FileSystem/Listing/Sorted.antt =====
-- A listing is in order and holds exactly the entries that are permitted.
use mathlib.Core.List.{Perm}
use mathlib.Core.List.Perm
use ftps_server.Base.{◌≡◌, refl, true, false, List, [], ◌∷◌, arith, Bool-cases, inl, inr}
use ftps_server.Text.{Bytes}
use ftps_server.FileSystem.Listing.{less, insert, sort}

-- No text is less than the one before it.
abbrev pub IsSorted : List Bytes → Type 0
IsSorted [] = Unit
IsSorted (a ∷ []) = Unit
IsSorted (a ∷ b ∷ bs) = (less b a ≡ false) × IsSorted (b ∷ bs)

less_asymm : (a b : Bytes) → less a b ≡ true → less b a ≡ false
unfolding less
less_asymm [] [] h = refl
less_asymm [] (y ∷ ys) h = refl
less_asymm (x ∷ xs) [] h = cc
less_asymm (x ∷ xs) (y ∷ ys) h = ground (arith, less_asymm xs ys)

insert-IsSorted : (a : Bytes) (l : List Bytes) → IsSorted l → IsSorted (insert a l)
unfolding insert
insert-IsSorted a [] h = tt
insert-IsSorted a (b ∷ []) h = ground (arith, less_asymm b a)
insert-IsSorted a (b ∷ c ∷ l) h =
    ground (arith, less_asymm b a, less_asymm c a, insert-IsSorted a (c ∷ l) h.1)

pub sort-IsSorted : (l : List Bytes) → IsSorted (sort l)
unfolding sort
sort-IsSorted [] = tt
sort-IsSorted (a ∷ l) = insert-IsSorted a (sort l) (sort-IsSorted l)

insert-perm : (a : Bytes) (l : List Bytes) → Perm (insert a l) (a ∷ l)
unfolding insert
insert-perm a [] = Perm.refl (a ∷ [])
insert-perm a (b ∷ l) = elim (Bool-cases (less b a)) [
  | inl e ↦ rw e (Perm.trans (Perm.cons b (insert-perm a l)) (Perm.swap a b l))
  | inr e ↦ rw e (Perm.refl (a ∷ b ∷ l))
]

pub sort-perm : (l : List Bytes) → Perm (sort l) l
unfolding sort
sort-perm [] = Perm.refl []
sort-perm (a ∷ l) = Perm.trans (insert-perm a (sort l)) (Perm.cons a (sort-perm l))
