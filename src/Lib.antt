-- ===== src/Lib.antt =====
-- Verification of WindRPC, a generator that turns YAML specifications of services into .proto files,
-- C server code and client code for RPC over serial lines and datagrams.
--
-- The program's parts. windrpc/utils/spec.py merges the core specification with the user's, and
-- windrpc/utils/spec_validator.py checks the result; the generators under windrpc/proto,
-- windrpc/server and windrpc/client run on a specification that passed. They share the conversions
-- of names in windrpc/utils/converter.py. windrpc/client/python.py writes the client's runtime:
-- COBS framing, six-byte headers, and the session that matches responses with requests.
-- windrpc/server/templates/windrpc.c is the server's: it finds the row of a request in the tables that
-- windrpc/server/generator.py writes, decodes the request, calls the application and answers.
--
-- Base: the shared library. Base/Text holds Python's strings as lists of code points; case
--   conversion is that of ASCII. Base/Result holds code that may raise. Base/Dict holds a dict with
--   integer keys. Base/Lists and Base/Tests restate list functions and tests over the native
--   numbers, and Base/Bits has the laws of bit operations that the program needs.
-- Client/Cobs: cobs_encode and cobs_decode of windrpc/client/python.py. The record Encoder holds
--   `dest`, `code_idx` and `code`. The decoder's loop runs on fuel, one round for each byte: each
--   round moves `idx` on, so that is enough.
-- Client/Frame: WindRpcFrame, pack_frame and unpack_frame. Bytes are numbers; where a theorem needs
--   them below 256 it says so.
-- Client/Session: WindRpcClient. `next_seq_id`, `rx_buffer` and `pending_requests` are its fields
--   `_next_seq_id`, `_rx_buffer` and `_pending_requests`; `futures` holds the state of each future
--   that was created, in that order, and a pending request holds the index of its own.
--   Session/Receive has receive_raw_datagram and receive_bytes, with the calls of on_notification as
--   a list of frames; the loop of receive_bytes runs on the length of the buffer, which is enough, as
--   each round takes a byte out. Session/Request has send_request_async, cut at its `await`: send_request is
--   the code before it; await_future, expire and cancel are the three ways to go on. Session/Reach
--   orders these operations as an event loop may.
-- Converter: windrpc/utils/converter.py, each function under its name.
-- Spec: the dicts of a specification as records, and windrpc/utils/spec.py. A key that is missing
--   and one that is null are both `none`, or an empty list.
-- Validator: windrpc/utils/spec_validator.py. The lists `errors` and `warnings` hold faults as data.
--   Names has validate_name, Unique the two uniqueness checks, Types is_valid_type and
--   validate_fields, Enums validate_enums, Rpcs the checks of one service's numbers and RPCs, and
--   Whole the order in which validate runs them.
-- Server/Sizing: _calculate_max_payload_size and _calculate_stack_and_buffer_sizes of
--   windrpc/server/generator.py. Server/RpcTypes: its _get_rpc_types. Server/Dispatch: the rows that
--   its _generate_flat_dispatch_table writes, as records, and the search of the generated
--   windrpc_find_flat_handler.
-- Server/Enums: _get_service_commands and the index and event enums of the same file.
-- Server/Indexed: _generate_dispatch_table, and windrpc_get_rpc_index, windrpc_get_req_ptr and
--   windrpc_get_res_ptr as the generator writes them.
-- Proto: the values of enums, resolve_type_name, generate_import_paths and the enum RpcId of
--   windrpc/proto/generator.py. Client/Constants: rpc_map of windrpc/client/python.py.
-- Spec/Required: what the generators do about a key that is missing.
-- Client/Session/Reach/Abstract: the table of calls that a client amounts to, with what each
--   operation may do to it; View: the table that a client shows.
-- Server/Merge: write_smart_merge of windrpc/server/generator.py. A file is its text or is not there;
--   `copy2` stands for shutil.copy2. Base/Pieces has the methods of str that it uses.
--   Server/Callbacks: the text of _generate_callbacks_skeleton, as lines in blocks that an empty line
--   ends; the bodies of its handlers are what the user replaces.
-- Client/Tables: the constants of the identifiers in windrpc/client/js.py and
--   windrpc/client/csharp.py. Client/Js: the names of the methods that windrpc/client/js.py writes for
--   an RPC, with the constant that they use; Schema has build_protobufjs_root_json.
-- Proto/Options: windrpc/proto/options_generator.py; a line of an options file is a record of its
--   target, key and value.
-- Proto/Files: generate_types_proto and generate_service_proto of windrpc/proto/generator.py; a file is
--   a record of its package, imports, enums and messages. Proto/Resolve/Known has the names that such
--   a file may use, and Validator/Whole/References what the validator makes sure of about them.
-- Server/Runtime: windrpc/server/templates/windrpc.c. nanopb and the functions of the application are
--   the record Platform, a parameter; StreamsFit says that nanopb does not write beyond its buffer.
--   The memory behind a packet is a parameter, too. Server/Structs: the static buffers and the
--   functions that find them, as windrpc/server/generator.py writes them; Server/Notify: the helpers
--   that send events, and what such a helper does.
-- Proto/Generate: generate of windrpc/proto/generator.py, as the events on the disk and the outcome. A
--   path is the list of the parts that are joined; the options files are one event, and what the
--   earlier calls store in the specification is passed on to it.
--   Proto/Generate/Files says independently of the events which files there should be.
--
-- Not modelled: the text of messages and of generated files, printing, the order in which faults
-- are printed, files but for the smart merge and the generator of the .proto files, command lines, the C headers, the core's own handlers on the server, and the text of the classes of the
-- clients in C# and JavaScript. Of a callback and of the transport the model has whether a call raises; a callback that calls the
-- client again is not modelled. Of asyncio, the future's states and the three outcomes of wait_for
-- are; its clock is not. A type looked up for a service without a name is not found here, where the
-- program raises KeyError.
pub mod Base
pub mod Client
pub mod Converter
pub mod Proto
pub mod Server
pub mod Spec
pub mod Validator
