-- ===== src/Keystore/Calls.antt =====
-- The calls that the programs make of core/keystore.cpp, one after the other, by whichever process: the
-- functions of the keystore are the atomic steps on the file.
pub mod Keeps
pub mod Revoked
pub mod Sound
pub mod Race
use x_auth.Base.{Bytes, ◌≡◌}
use x_auth.Base.Int.{ℤ}
use x_auth.Keystore.Sqlite.{Sqlite}
use x_auth.Keystore.Store.{
  Device, find_device, add_device, set_device_status, set_device_note, list_devices,
  migrate_keystore,
}

pub data Call : Type 0 where
  find : Bytes → Device → Call
  add : Device → Call
  status : Bytes → ℤ → Call
  note : Bytes → Bytes → Call
  list migrate : Call

module _ (q : Sqlite) where
  -- What a call leaves.
  unfoldable pub perform : Call → q.World → q.World
  perform (find id out) w = (find_device q id out w).1
  perform (add d) w = (add_device q d w).1
  perform (status id s) w = (set_device_status q id s w).1
  perform (note id n) w = (set_device_note q id n w).1
  perform list w = (list_devices q w).1
  perform migrate w = (migrate_keystore q w).1

  -- Calls that all have a property.
  pub data Run (P : Call → Type 0) (w : q.World) : q.World → Type 0 where
    here : Run P w w
    next : {v : q.World} (c : Call) → P c → Run P w v → Run P w (perform c v)

  pub Run-one : (P : Call → Type 0) (c : Call) (w : q.World) → P c → Run P w (perform c w)
  Run-one P c w h = next c h here

  pub Run-append : {P : Call → Type 0} {w v u : q.World} → Run P w v → Run P v u → Run P w u
  Run-append r here = r
  Run-append r (next c h s) = next c h (Run-append r s)

  pub Run-keeps :
      {P : Call → Type 0} {w v : q.World} (I : q.World → Type 0)
      → ((c : Call) (u : q.World) → P c → I u → I (perform c u))
      → I w
      → Run P w v
      → I v
  Run-keeps I step h here = h
  Run-keeps I step h (next c p r) = step c _ p (Run-keeps I step h r)
