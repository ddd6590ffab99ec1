-- ===== src/Corerun/Restart/Ends.antt =====
-- A restart ends.
use local_clash.Prelude.{◌≡◌, Option, some}
use local_clash.Apply.Disk.{Disk}
use local_clash.MihomoTest.Data.{Host as TestHost}
use local_clash.Corerun.Process.{Host}
use local_clash.Corerun.Options.{RestartResult}

Finishes : Option RestartResult → Type 0
Finishes o = (r : RestartResult) × (o ≡ some r)
