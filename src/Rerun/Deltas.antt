-- ===== src/Rerun/Deltas.antt =====
-- The reader through which orcastork/scheduling/watermark.py computes an operator's delta: the
-- orchestrator hands it its mirror.
use orcastork.Mirror.{World}
use orcastork.Mirror.Reads
use orcastork.Rerun.{DataPointReader}

abbrev pub mirror_reader : DataPointReader World
mirror_reader = record { snapshot = Reads.snapshot; change_set_since = Reads.change_set_since }
