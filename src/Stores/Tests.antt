-- ===== src/Stores/Tests.antt =====
-- The stores on a few calls.
use serwebs.Prelude.{String, none, some, List, [], ◌∷◌, arith}
use serwebs.Dict.{get}
use serwebs.Roles.{User}
use serwebs.Stores.{Stores, Profile, Call, rename, tag, save, remove}
use serwebs.Stores.Clean.{IsClean}

abbrev admin : User
admin = record { username = "root"; role = "admin" }

abbrev profile : Profile
profile = ("baudrate", "9600") ∷ []

abbrev empty : Stores
empty = record { aliases = []; tags = []; profiles = [] }

abbrev calls : List Call
calls =
    rename none "a" " x " admin
    ∷ tag "a" (some (" lab " ∷ " " ∷ [])) admin
    ∷ save "a" profile admin
    ∷ remove "b" admin
    ∷ []

abbrev same : String → String
same s = s

empty-IsClean : IsClean empty
unfolding get
empty-IsClean = record {
  aliases = λ k v h. ground (arith, h);
  tags = λ k v h. ground (arith, h);
  profiles = λ k v h. ground (arith, h);
}
