-- ===== src/Session/Shown.antt =====
-- What LIST sends, as the client reads it: line by line.
use ftps_server.Base.{ℕ, ◌≡◌, false, List, [], ◌∷◌, ◌==◌, if◌then◌else◌, All}
use ftps_server.Text.{Bytes}
use ftps_server.Command.{Command}
use ftps_server.FileSystem.Os.{Os}

abbrev pub HasNoLineFeed : Bytes → Type 0
HasNoLineFeed = All (λ (d : ℕ). (d == b'\n') ≡ false)

-- A text line by line, each but the last ended by a line feed.
abbrev put_first : ℕ → List Bytes → List Bytes
put_first c [] = (c ∷ []) ∷ []
put_first c (l ∷ ls) = (c ∷ l) ∷ ls

unfoldable pub lines_of : Bytes → List Bytes
lines_of [] = []
lines_of (c ∷ cs) = let rest = lines_of cs in if c == b'\n' then [] ∷ rest else put_first c rest
