-- ===== src/Volkswagen.antt =====
-- The controller of the Volkswagen port: selfdrive/car/volkswagen/carcontroller.py, with the messages of
-- mqbcan.py and pqcan.py.
mod Messages
mod Mqb
mod Pq
mod Controller
mod Stuck
mod Drive
mod Tests
