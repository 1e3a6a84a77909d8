-- ===== src/Tests/Store.antt =====
-- The keystore in memory, and the socket helpers on short streams.
use x_auth.Base.{true, codes, List, [], ◌∷◌, ◌≡◌, refl}
use x_auth.Base.Int.{pos}
use x_auth.Keystore.Id.{crockford_char, crockford_chars, valid_device_id}
use x_auth.Keystore.Store.{Device, default_device, find_device, add_device}
use x_auth.Keystore.Find.{FindResult, find_device_sound}
use x_auth.Keystore.Insert.{InsertResult, add_device-InsertResult}
use x_auth.Socket.{ReadEvent, chunk, read_line}
use x_auth.Socket.ReadLine.{first_line, stream, read_line-stream}
use x_auth.Tests.Fixtures.{memory, memory_laws, id, key, keystore}

find_device_sound_example :
    FindResult
      (valid_device_id id)
      (memory_laws.find keystore id)
      id
      default_device
      (find_device memory id default_device keystore).0.0
      (find_device memory id default_device keystore).0.1
    × (memory_laws.find (find_device memory id default_device keystore).1
        ≡ memory_laws.find keystore)
find_device_sound_example = find_device_sound memory memory_laws id default_device keystore

valid_id : valid_device_id id ≡ true
unfolding valid_device_id crockford_chars crockford_char
valid_id = refl

abbrev device : Device
device = record { id = codes "CD34"; key = key; status = pos 1; note = codes "desk"; created = [] }

add_device-InsertResult_example :
    InsertResult device
      (memory_laws.find keystore)
      (memory_laws.find (add_device memory device keystore).1)
      (add_device memory device keystore).0
add_device-InsertResult_example = add_device-InsertResult memory memory_laws device keystore

abbrev reads : List ReadEvent
reads = chunk (codes "ST") ∷ ReadEvent.interrupted ∷ chunk (codes "AT\nX") ∷ []

read_line-stream_example : read_line 65 reads [] ≡ first_line 65 (stream reads)
read_line-stream_example = read_line-stream 65 reads
