-- ===== src/User.antt =====
-- src/ftp_user.h, src/ftp_user.cpp: an account, and src/ftp_user_database.cpp: the static table of
-- accounts, as an association list. Its order shows nowhere.
pub mod Laws
pub mod Refine
use ftps_server.Base.{
  ℕ, Bool, true, false, ◌&&◌, List, [], ◌∷◌, Option, none, some, if◌then◌else◌, ℤ,
}
use ftps_server.Text.{Bytes, codes, equal}
use ftps_server.Status.{operation_success, operation_failure, of_bool}

pub record User : Type 0 where
  pub login : Bytes
  pub password : Bytes
  pub folder : Bytes

abbrev pub empty_user : User
empty_user = record { login = []; password = []; folder = [] }

-- The constructors, and `operator=`. What a move leaves in its source is up to the library; an
-- assignment of an object to itself stops at once.
abbrev pub new_user : Bytes → Bytes → Bytes → User
new_user login password folder = record { login = login; password = password; folder = folder }

abbrev copy_user : User → User
copy_user another = record {
  login = another.login;
  password = another.password;
  folder = another.folder;
}

abbrev move_user : User → User → User × User
move_user another left_over = (
  record { login = another.login; password = another.password; folder = another.folder },
  left_over,
)

abbrev assign_user : Bool → User → User → User
assign_user same target other =
    if same
    then target
    else record target { login = other.login; password = other.password; folder = other.folder }

abbrev pub set_login : User → Bytes → User
set_login u l = record u { login = l }

abbrev pub set_password : User → Bytes → User
set_password u p = record u { password = p }

abbrev pub set_folder : User → Bytes → User
set_folder u f = record u { folder = f }

-- `ftp_user::operator==`: the folder does not count.
unfoldable pub same_user : User → User → Bool
unfolding equal
same_user a b = equal a.login b.login && equal a.password b.password

abbrev pub Database : Type 0
Database = List (Bytes × User)

abbrev pub initial_database : Database
initial_database =
    (codes "admin", new_user (codes "admin") (codes "admin") (codes "/home/"))
    ∷ (codes "annoviko", new_user (codes "annoviko") (codes "12345") (codes "/home/"))
    ∷ []

-- `std::map::find`, `operator[]` on a new key, and `erase`.
unfoldable pub find : Bytes → Database → Option User
unfolding equal
find k [] = none
find k ((j, u) ∷ db) = if equal j k then some u else find k db

unfoldable pub remove_key : Bytes → Database → Database
unfolding equal
remove_key k [] = []
remove_key k ((j, u) ∷ db) = if equal j k then db else (j, u) ∷ remove_key k db

abbrev pub check_password : Bytes → User → User → ℤ × User
check_password password candidate user =
    if equal candidate.password password
    then (operation_success, assign_user false user candidate)
    else (operation_failure, user)

-- `ftp_user_database::get`: the key is the login of `user`, and `user` is replaced on success.
unfoldable pub get : Database → Bytes → Bytes → User → ℤ × User
unfolding find
get db login password user = elim (find user.login db) [
  | none ↦ (operation_failure, user)
  | some candidate ↦ check_password password candidate user
]

-- `ftp_user_database::add` and `erase` with the `int` that they return.
unfoldable pub add : Database → User → ℤ × Database
unfolding find
add db user = elim (find user.login db) [
  | none ↦ (of_bool true, (user.login, assign_user false empty_user user) ∷ db)
  | some u ↦ (of_bool false, db)
]

unfoldable pub erase : Database → User → ℤ × Database
unfolding find remove_key
erase db user = elim (find user.login db) [
  | none ↦ (of_bool true, db)
  | some u ↦ (of_bool true, remove_key user.login db)
]
