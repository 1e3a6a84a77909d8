-- ===== src/Tests/Provisioning.antt =====
-- The provisioning tool on the keystore in memory.
use x_auth.Base.{ℕ, Bytes, codes, List, [], ◌∷◌, Option, some}
use x_auth.Base.Decimal.{value}
use x_auth.Base.Int.{ℤ, pos}
use x_auth.Provision.{FileEvent, open_failed, wrote, AddOptions, add}
use x_auth.Provision.Add.{AddResult, add-AddResult}
use x_auth.Tests.Fixtures.{memory, memory_laws, id, keystore, drawn}

abbrev draws : ℕ → ℕ → Option Bytes
draws call = drawn

abbrev stoi : Bytes → Option ℤ
stoi s = some (pos (value s))

abbrev options : AddOptions
options = record { label = codes "desk"; header = codes "device.h"; id_length = pos 4 }

-- The whole header is written.
abbrev event : FileEvent
event = wrote 405

add-AddResult_example :
    AddResult memory memory_laws draws options
      (memory_laws.find keystore)
      (memory_laws.find (add memory draws open_failed options keystore).1)
      (add memory draws open_failed options keystore).0
add-AddResult_example = add-AddResult memory memory_laws draws open_failed options keystore

abbrev argv : List Bytes
argv = codes "revoke" ∷ id ∷ []
