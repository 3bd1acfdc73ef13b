-- ===== src/Check/Version.antt =====
-- The version stands between its prefix and its suffix.
use hacman.Check.Search.{First}
use hacman.Project.{Project}
use hacman.Base.{[], ◌∷◌, ◌++◌, ◌≡◌, ◌≢◌, Lacks, Bytes}

-- `text` ends the version `v`: with the suffix, at its first place, or without a suffix with a LF.
pub data Ends (suffix v : Bytes) : Bytes → Type 0 where
  suffixed :
      (rest : Bytes)
      → suffix ≢ []
      → First suffix v (suffix ++ rest)
      → Ends suffix v (suffix ++ rest)
  lined : (rest : Bytes) → suffix ≡ [] → Lacks b'\n' v → Ends suffix v (b'\n' ∷ rest)
