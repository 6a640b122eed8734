-- ===== src/Session/Sized.antt =====
-- STOR with a size that ALLO has announced: where its loop ends.
use ftps_server.Base.{
  ℕ, zero, suc, ◌+◌, ◌-◌, ◌≡◌, ◌≢◌, ◌≤◌, ◌<◌, ◌⊎◌, inl, inr, refl, ap, Bool, List, [], ◌∷◌, ◌++◌,
  arith, length, pos, negsuc, ◌-ℤ◌, leb, Bool-cases,
}
use ftps_server.Text.{Bytes}
use ftps_server.FileSystem.Os.{Os}
use ftps_server.Session.Transfer.{write_chunk, receive_sized}
use ftps_server.Session.Receive.{AreChunks, total, write_all}

-- What is left to pull, once one chunk more is pulled, before the end of the data at the latest.
abbrev pub behind_next : List Bytes → List Bytes → List Bytes
behind_next [] later = later
behind_next (c ∷ cs) later = cs ++ [] ∷ later

-- No first chunks make up a size.
abbrev pub NeverMakes : ℕ → List Bytes → Type 0
NeverMakes n chunks = (a b : List Bytes) → chunks ≡ a ++ b → total a ≢ n

negsuc-minus : (k l : ℕ) → negsuc k -ℤ pos l ≡ negsuc (k + l)
unfolding ◌-ℤ◌
negsuc-minus k l = ground arith

minus-le : (n l : ℕ) → l ≤ n → pos n -ℤ pos l ≡ pos (n - l)
unfolding ◌-ℤ◌
minus-le n l h = ground arith

minus-gt : (n l : ℕ) → n < l → pos n -ℤ pos l ≡ negsuc (l - n - 1)
unfolding ◌-ℤ◌
minus-gt n l h = ground arith

NeverMakes-nil : (n : ℕ) → NeverMakes (suc n) []
NeverMakes-nil n [] b e h = omega arith
NeverMakes-nil n (x ∷ a) b e h = cc

NeverMakes-cons :
    (n : ℕ) (c : Bytes) (chunks : List Bytes)
    → length c ≤ suc n
    → NeverMakes (suc n - length c) chunks
    → NeverMakes (suc n) (c ∷ chunks)
NeverMakes-cons n c chunks l never [] b e h = omega arith
NeverMakes-cons n c chunks l never (x ∷ a) b e h =
    let same : c ≡ x = cc in
    let rest : chunks ≡ a ++ b = cc in never a b rest (omega (arith, h, ap length same))

NeverMakes-long :
    (n : ℕ) (c : Bytes) (chunks : List Bytes) → suc n < length c → NeverMakes (suc n) (c ∷ chunks)
NeverMakes-long n c chunks l [] b e h = omega arith
NeverMakes-long n c chunks l (x ∷ a) b e h =
    let same : c ≡ x = cc in omega (arith, h, ap length same)

module _ {F : Type 0} (os : Os F) (is_open : Bool) (p : Bytes) (later : List Bytes) where
  -- A size that is passed stops nothing.
  receive_sized-negsuc :
      (k : ℕ) (chunks : List Bytes) (f : F)
      → AreChunks chunks
      → receive_sized os (negsuc k) is_open p (chunks ++ [] ∷ later) f
        ≡ (write_all os is_open p chunks f, later)
  unfolding receive_sized
  receive_sized-negsuc k [] f h = refl
  receive_sized-negsuc k ([] ∷ chunks) f h = absurd (h.0 refl)
  receive_sized-negsuc k ((c ∷ cs) ∷ chunks) f h =
      rw (negsuc-minus k (length (c ∷ cs))) (
        receive_sized-negsuc (k + length (c ∷ cs)) chunks (write_chunk os is_open p (c ∷ cs) f) h.1)

  -- The two ways in which the loop ends.
  abbrev pub Ends : ℕ → List Bytes → F → F × List Bytes → Type 0
  Ends n chunks f result =
      ((a b : List Bytes) × (chunks ≡ a ++ b)
        × (total a ≡ n)
        × (result ≡ (write_all os is_open p a f, behind_next b later)))
      ⊎ (NeverMakes n chunks × (result ≡ (write_all os is_open p chunks f, later)))

  Ends-cons :
      (n : ℕ) (c : Bytes) (chunks : List Bytes) (f : F) (result : F × List Bytes)
      → length c ≤ suc n
      → Ends (suc n - length c) chunks (write_chunk os is_open p c f) result
      → Ends (suc n) (c ∷ chunks) f result
  Ends-cons n c chunks f result l (inl (a, b, e, made, r)) =
      inl (c ∷ a, b, ap (λ t. c ∷ t) e, omega (arith, made), r)
  Ends-cons n c chunks f result l (inr (never, r)) = inr (NeverMakes-cons n c chunks l never, r)

  -- With a size announced: if the first chunks that come make it up exactly, they are written, and the
  -- next one is pulled and lost; if no first chunks do, because too little comes or because a chunk goes
  -- past it, all chunks up to the end of the data are written, also those behind the size.
  pub receive_sized-Ends :
      (n : ℕ) (chunks : List Bytes) (f : F)
      → AreChunks chunks
      → Ends n chunks f (receive_sized os (pos n) is_open p (chunks ++ [] ∷ later) f)
  unfolding receive_sized
  receive_sized-Ends zero [] f h = inl ([], [], refl, refl, refl)
  receive_sized-Ends zero ([] ∷ chunks) f h = absurd (h.0 refl)
  receive_sized-Ends zero ((c ∷ cs) ∷ chunks) f h = inl ([], (c ∷ cs) ∷ chunks, refl, refl, refl)
  receive_sized-Ends (suc n) [] f h = inr (NeverMakes-nil n, refl)
  receive_sized-Ends (suc n) ([] ∷ chunks) f h = absurd (h.0 refl)
  receive_sized-Ends (suc n) ((c ∷ cs) ∷ chunks) f h =
      let l = length (c ∷ cs) in
      let f' = write_chunk os is_open p (c ∷ cs) f in
      elim (Bool-cases (leb l (suc n))) [
        | inl fits ↦
            let le : l ≤ suc n = ground arith in
            rw (minus-le (suc n) l le)
              (Ends-cons n (c ∷ cs) chunks f _ le (receive_sized-Ends (suc n - l) chunks f' h.1))
        | inr long ↦
            let gt : suc n < l = ground arith in
            rw (minus-gt (suc n) l gt) (
              inr (
                NeverMakes-long n (c ∷ cs) chunks gt,
                receive_sized-negsuc (l - suc n - 1) chunks f' h.1,
              ))
      ]
