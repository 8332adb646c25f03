-- ===== src/Interfaces.antt =====
-- The base classes of the car ports: selfdrive/car/interfaces.py.
mod Blinkers
mod Pressed
mod Events
mod Faults
mod Cluster
mod Engagement
mod Pedals
mod Tests
