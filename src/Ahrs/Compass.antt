-- ===== src/Ahrs/Compass.antt =====
-- controller/src/ahrs_calibration.c: a calibration of the magnetometer as a whole, from its start
-- through the samples that `ahrs_update_magnetometer` is given.
pub mod Steps
pub mod Session
pub mod Extrema
pub mod Completion
pub mod Progress
pub mod Finish
pub mod Accuracy
use segling.Prelude.{List, [], ◌∷◌, none, some}
use segling.Float.{F32}
use segling.Ahrs.State.{MagnetometerValue, Ahrs}
use segling.Ahrs.Calibration.{ahrs_calibrate_compass, mag_cal_note_sample}
use segling.Ahrs.{ahrs_update_magnetometer}

-- The start of a calibration, the call with NULL.
unfoldable pub begin : {f : F32} → Ahrs f → Ahrs f
begin s = (ahrs_calibrate_compass none s).0

-- The samples in order.
unfoldable pub feed : {f : F32} → List MagnetometerValue → Ahrs f → Ahrs f
feed [] s = s
feed (v ∷ vs) s = feed vs (ahrs_update_magnetometer (some v) s).0

-- The samples as they are noted, without the check for the end.
unfoldable pub note_all : {f : F32} → List MagnetometerValue → Ahrs f → Ahrs f
note_all [] s = s
note_all (v ∷ vs) s = note_all vs (mag_cal_note_sample v s)
