-- ===== src/Mazda/Run.antt =====
-- The controller of selfdrive/car/mazda/carcontroller.py over the updates of a drive.
use openpilot9xxcivic.Clip.{Clip}
