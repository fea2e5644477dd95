-- ===== src/Nemesis.antt =====
-- suite/nemesis.c and suite/nemesis.h: the generator of scenarios and the minimizer of a failing
-- one. Texts are those of the reader of scenarios, a list of bytes.
pub mod Valid
pub mod Cuts
pub mod Minimize
pub mod Plan
pub mod Text
mod Tests
use resonance.Prelude.{ℕ, ◌≡◌, refl, Bool, true, false, Option, none, some, [], ◌∷◌}
use resonance.Suite.{Bytes, SuiteNode, map, list, scalar, Entries, no_entries, entry}

-- `kMaxPass` and `kMaxTry`.
abbrev pub max_pass : ℕ
max_pass = 4

abbrev pub max_try : ℕ
max_try = 512

abbrev pub is_some {ℓ} : {A : Type ℓ} → Option A → Bool
is_some none = false
is_some (some a) = true

-- The entries of a map; a node of another kind, or none, has no entries to look at.
abbrev pub entries_of : Option SuiteNode → Option Entries
entries_of none = none
entries_of (some (map line es)) = some es
entries_of (some (list line xs)) = none
entries_of (some (scalar line text)) = none
