-- ===== src/Logger/Rotation.antt =====
-- What the log files hold after a call of the logger, which may rotate them.
use Prim.Native.String.{◌++◌ as ◌++ₛ◌}
use client_server_architectu.Logger.{or_new}
use client_server_architectu.Platform.{Platform}
use client_server_architectu.Prelude.Dict
use client_server_architectu.Prelude.Dict.{Dict}
use client_server_architectu.Prelude.Int.{to_string}
use client_server_architectu.Prelude.{◌&&◌, ◌≡◌, ◌∷◌, ◌++◌, Bool, none, [], String, List}
use client_server_architectu.World.{Journal, LogFile}

-- the lines of the rotated files, in the order of the rotations
unfoldable pub rotated_lines : Dict (List String) → List String
rotated_lines [] = []
rotated_lines ((name, lines) ∷ files) = lines ++ rotated_lines files

-- every line of the log, from the oldest file on
abbrev pub all_lines : LogFile → List String
all_lines f = rotated_lines f.rotated ++ or_new f.content

module _ ⦃p : Platform⦄ where
  -- the name of a file that is rotated now
  abbrev pub archive_name : Journal → String
  archive_name j = "server_" ++ₛ to_string (p.clock j.readings) ++ₛ ".log"

  -- No file of this second was rotated before.
  abbrev pub IsNewSecond : Journal → Type 0
  IsNewSecond j =
      (Dict.lookup (archive_name j) j.file.rotated ≡ none)
      × (Dict.lookup (archive_name j ++ₛ ".gz") j.file.rotated ≡ none)

  abbrev SameLines : Journal → Journal → Type 0
  SameLines j k = all_lines k.file ≡ all_lines j.file

  -- The line is written, and is the last one, if the file is enabled and its stream good after it.
  abbrev pub is_written : LogFile → Bool
  is_written f = f.enabled && f.is_good
