-- ===== src/Capability.antt =====
-- internal/capability/capability.go: the coarse capabilities and what a store URI needs.
pub mod Grants
use howlframe.Common.{String, ◌&&◌, Option, none, some, List, [], ◌∷◌, ltb, if◌then◌else◌}
use Prim.Native.String.{len}
use text.Mathlib.Text.{starts_with}

-- `Capability` is a string type.
abbrev pub Capability : Type 0
Capability = String

-- `None` and the five classes.
abbrev pub no_capability : Capability
no_capability = ""

abbrev pub network : Capability
network = "network"

abbrev pub filesystem : Capability
filesystem = "filesystem"

abbrev pub process : Capability
process = "process"

abbrev pub environment : Capability
environment = "environment"

abbrev pub database : Capability
database = "database"

-- `All`
abbrev pub all : List Capability
all = network ∷ filesystem ∷ process ∷ environment ∷ database ∷ []

-- `StoreRequirements`: `none` where the source returns false.
unfoldable pub store_requirements : String → Option (List Capability)
store_requirements uri =
    if starts_with uri "memory://" && ltb (len "memory://") (len uri)
    then some (database ∷ [])
    else if starts_with uri "file://" && ltb (len "file://") (len uri)
    then some (database ∷ filesystem ∷ [])
    else none
