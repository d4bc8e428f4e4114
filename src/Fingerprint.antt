-- ===== src/Fingerprint.antt =====
-- fingerprint.rs: the CPU fingerprinter, which reports one constant attribute.
use nomad_rs.Base.{String, []}
use nomad_rs.Base.HashMap.{HashMap, insert}
use nomad_rs.Error.{Result, ok}

-- `CpuFingerprinter::name`.
unfoldable pub cpu_name : String
cpu_name = "cpu"

-- `CpuFingerprinter::detect`.
unfoldable pub cpu_detect : Result (HashMap String)
cpu_detect = ok (insert "cpu.totalcompute" "4000" [])
