-- ===== src/Host/Detours/Plays.antt =====
-- native/dwrt-host/dwrt_host.cpp: any nested detours keep what the counters of all components account for.
use dwrt.TargetProbe.Classifier.{}
use dwrt.TargetProbe.Accounting.{}
