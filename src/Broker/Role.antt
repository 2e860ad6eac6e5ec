-- ===== src/Broker/Role.antt =====
-- The roles of broker/protocol.py.
use Prim.Native.String.{String}

abbrev pub ida : String
ida = "ida"

abbrev pub windbg : String
windbg = "windbg"

abbrev pub broker : String
broker = "broker"
