-- ===== src/Broker/Kind.antt =====
-- The message types of broker/protocol.py.
use Prim.Native.String.{String}

abbrev pub hello : String
hello = "hello"

abbrev pub hello_ack : String
hello_ack = "hello_ack"

abbrev pub pc_update : String
pc_update = "pc_update"

abbrev pub ida_pc_mapped : String
ida_pc_mapped = "ida_pc_mapped"

abbrev pub reg_request : String
reg_request = "reg_request"

abbrev pub reg_response : String
reg_response = "reg_response"

abbrev pub mem_request : String
mem_request = "mem_request"

abbrev pub mem_response : String
mem_response = "mem_response"

abbrev pub error : String
error = "error"
