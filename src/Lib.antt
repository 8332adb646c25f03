-- ===== src/Lib.antt =====
-- A verification library for the car layer of openpilot (selfdrive/car): how the car is recognised, how
-- steering commands are limited, and how the ports turn controls into messages and states into events.
--
-- The parts and how they work together. At the start card.py calls get_car of car_helpers.py, which
-- asks for the VIN (vin.py) and the firmware versions of the ECUs (fw_versions.py, over the ISO-TP
-- queries of isotp_parallel_query.py), matches the versions against the database of all ports, and
-- falls back on the messages that the car sends (fingerprints.py). From then on the daemon runs the
-- port's interface once per frame: interfaces.py builds the state and its events, and the port's
-- controller limits the commands with the helpers of selfdrive/car/__init__.py.
--
-- Files and what they model:
--   Prelude and its children: lists, options, integers, Python's sets and dictionaries.
--   Clip: the parameter that stands for `clip` of common/numpy_fast, which the repository lacks.
--   Can: CAN messages and the packer.
--   Limits: the steering limiters of selfdrive/car/__init__.py; Limits/Angle: the one
--     for angles; Limits/Bounds, Limits/Driver and Limits/Fixpoints hold what they keep.
--   Common: the other helpers of that file, one child for each.
--   Vin: selfdrive/car/vin.py; Vin/Query: get_vin, and Vin/Sound: where its answer comes from.
--   Fingerprint: can_fingerprint of car_helpers.py with fingerprints.py; Fingerprint/Startup: fingerprint,
--     get_car and get_startup_event of car_helpers.py; Fingerprint/Origin: where an answer comes from.
--   Firmware: the tables and records of fw_query_definitions.py and build_fw_dict; Firmware/Present: get_present_ecus;
--     Firmware/Brands: get_brand_ecu_matches; Firmware/Versions: get_fw_versions; Firmware/Exact,
--     Firmware/Fuzzy, Firmware/Match and Firmware/Query: the functions of those names in fw_versions.py.
--   IsoTp: get_data of isotp_parallel_query.py.
--   Ecus: ecu_addrs.py and disable_ecu.py.
--   Interfaces: the base classes of interfaces.py, and update_events of card.py in Interfaces/Pedals.
--   Honda: the port of the Civic, selfdrive/car/honda/carcontroller.py and hondacan.py.
--   Mazda: selfdrive/car/mazda/carcontroller.py and mazdacan.py.
--   Chrysler: selfdrive/car/chrysler/chryslercan.py and, in Chrysler/Controller, carcontroller.py;
--     Chrysler/Edges and Chrysler/Bounds hold what the controller keeps.
--   Nissan: selfdrive/car/nissan/nissancan.py and, in Nissan/Controller, carcontroller.py; Nissan/Run holds
--     what the controller keeps.
--   Subaru: selfdrive/car/subaru/carcontroller.py and subarucan.py; Subaru/Preglobal: the messages of the
--     platforms before the global one; Subaru/Bounds holds the commands, Subaru/Drive
--     and Subaru/Presses what a receiver reads of the messages.
--   Tesla: selfdrive/car/tesla/teslacan.py and, in Tesla/Controller, carcontroller.py; Tesla/Run holds its
--     angle.
--   Toyota: selfdrive/car/toyota/toyotacan.py and, in Toyota/Controller, carcontroller.py; Toyota/Drive holds
--     its request bits and its alert over a drive.
--   Volkswagen: selfdrive/car/volkswagen/carcontroller.py, mqbcan.py and pqcan.py; Messages is the interface
--     that the two modules of messages fill, and Stuck and Drive hold what the controller keeps.
--   Video: tools/lib/vidindex.py.
--
-- How the state and the operations correspond. An object is a record of the fields that its methods read
-- or write, a method is a function from the record to the new record and what is returned, a call of
-- the loop of card.py is one frame, and a list of frames or of packets is the run of the program. A
-- function that sends returns its messages. An exception that leaves the call is `none`, or a
-- constructor of the result. In the controllers a stock message has every key that is read of it and the
-- packer raises nothing, so that the one exception of the Volkswagen's is the AttributeError of a missing
-- create_eps_update.
--
-- Numbers. A float is an integer in thousandths, or in ten-thousandths where a file says so, and `int(round(x))` rounds such a number half to even; the
-- rounding of binary floats is not modelled, and where the code's product or quotient is not exact in
-- thousandths (the controller of the Civic) it is a parameter with the laws of 0. Ints are the integers,
-- or ℕ where they cannot be negative. Times are integers.
--
-- Bounds and fuel. The search over CAN packets runs on fuel 202, which is enough: it gives up by itself
-- after frame 200. The loop of hevc_index has a round of fuel for each byte, and each round passes three
-- bytes at least. The loops of the queries are recursions over the input of their passes; get_data comes
-- to its end when a pass ends after the total time. All others recur on a list.
--
-- Parameters, since their code is not in the repository: clip and interp (common/numpy_fast), the packer
-- (opendbc), and what a receiver reads of one signal of a message (Can.Reader), crcmod, the reports of IsoTpMessage.recv and the address of a response (panda), the enums of cereal, the clock. The tables of
-- fingerprints and firmware versions, which are data of the ports, are parameters as well: the theorems
-- hold for each of them.
--
-- Not modelled: sockets, stored parameters and logging; the other ports; the radar interfaces; the tables
-- of values; the documentation generator; the other tools and the build.
mod Prelude
pub mod Clip
pub mod Can
pub mod Limits
pub mod Chrysler
pub mod Common
pub mod Vin
pub mod Fingerprint
pub mod Firmware
pub mod Interfaces
pub mod IsoTp
pub mod Ecus
pub mod Honda
pub mod Mazda
pub mod Nissan
pub mod Tesla
pub mod Toyota
pub mod Video
pub mod Subaru
pub mod Volkswagen
